-- ===== src/Prelude/Best.antt =====
-- The loop that keeps the best candidate: `if (!best || candidate < *best) best = candidate;`, where a
-- round without a candidate goes on.
use Prim.Native.Nat.{ℕ, zero, suc}
use mathlib.Core.Path.{◌≡◌, refl, sym, ap}
use mathlib.Core.Logic.{◌⊎◌, inl, inr}
use mathlib.Core.Bool.{Bool, true, false}
use mathlib.Core.List.{List, [], ◌∷◌}
use mathlib.Core.Option.{Option, none, some}
use native.Mathlib.Omega.{arith}
use sentinel_public.Prelude.Tests.{if◌then◌else◌, Bool-cases}
use sentinel_public.Prelude.Lists.{All, get_elem?}
use sentinel_public.Prelude.Order.{StrictOrder}

-- The numbers from `first` on, `count` of them.
abbrev pub range : ℕ → ℕ → List ℕ
range first zero = []
range first (suc count) = first ∷ range (suc first) count

module _ {ℓ} {A : Type ℓ} (lt : A → A → Bool) where
  unfoldable pub pick : Option A → Option A → Option A
  pick best none = best
  pick none (some a) = some a
  pick (some b) (some a) = if lt a b then some a else some b

  unfoldable pub pick_all : Option A → List (Option A) → Option A
  unfolding pick
  pick_all best [] = best
  pick_all best (x ∷ xs) = pick_all (pick best x) xs

  -- The candidate is not better than `b`.
  abbrev pub NotBetter : A → Option A → Type 0
  NotBetter b none = Unit
  NotBetter b (some a) = lt a b ≡ false

  -- The value of one of the candidates.
  abbrev pub IsOneOf : A → List (Option A) → Type ℓ
  IsOneOf b xs = (i : ℕ) × (get_elem? xs i ≡ some (some b))

  abbrev pub IsAbsent : Option A → Type ℓ
  IsAbsent x = x ≡ none

  -- One of the candidates that no other beats, or nothing where there is no candidate.
  abbrev pub IsBest : List (Option A) → Option A → Type ℓ
  IsBest xs none = All IsAbsent xs
  IsBest xs (some b) = IsOneOf b xs × All (NotBetter b) xs

  abbrev Improves : A → List (Option A) → Option A → Type ℓ
  Improves b xs best =
      (r : A) × (best ≡ some r) × ((r ≡ b) ⊎ IsOneOf r xs) × (lt b r ≡ false) × All (NotBetter r) xs

  abbrev later : (r : A) (x : Option A) (xs : List (Option A)) → IsOneOf r xs → IsOneOf r (x ∷ xs)
  later r x xs (i, e) = (suc i, e)

  module _ (o : StrictOrder lt) where
    irrefl : (a : A) → lt a a ≡ false
    irrefl a = ground (arith, o.asymm a a)

    replace :
        (a b : A) (xs : List (Option A)) (best : Option A)
        → lt a b ≡ true
        → Improves a xs best
        → Improves b (some a ∷ xs) best
    replace a b xs best l (r, e, w, n, ns) = (
      r,
      e,
      inr (elim w [
        | inl q ↦ (zero, ap (λ x. some (some x)) (sym q))
        | inr m ↦ later r (some a) xs m
      ]),
      o.trans r a b n (o.asymm a b l),
      (n, ns),
    )

    retain :
        (a b : A) (xs : List (Option A)) (best : Option A)
        → lt a b ≡ false
        → Improves b xs best
        → Improves b (some a ∷ xs) best
    retain a b xs best l (r, e, w, n, ns) = (
      r,
      e,
      elim w [ inl q ↦ inl q | inr m ↦ inr (later r (some a) xs m) ],
      n,
      (o.trans r b a n l, ns),
    )

    pick_all-Improves : (xs : List (Option A)) (b : A) → Improves b xs (pick_all (some b) xs)
    unfolding pick_all
    pick_all-Improves [] b = (b, refl, inl refl, irrefl b, tt)
    pick_all-Improves (none ∷ xs) b =
        let (r, e, w, n, ns) = pick_all-Improves xs b in
        (r, e, elim w [ inl q ↦ inl q | inr m ↦ inr (later r none xs m) ], n, (tt, ns))
    pick_all-Improves (some a ∷ xs) b = elim (Bool-cases (lt a b)) [
      | inl l ↦ rw l (replace a b xs _ l (pick_all-Improves xs a))
      | inr l ↦ rw l (retain a b xs _ l (pick_all-Improves xs b))
    ]

    pub pick_all-IsBest : (xs : List (Option A)) → IsBest xs (pick_all none xs)
    unfolding pick_all
    pick_all-IsBest [] = tt
    pick_all-IsBest (none ∷ xs) = shift (pick_all none xs) (pick_all-IsBest xs)
      where
        shift : (best : Option A) → IsBest xs best → IsBest (none ∷ xs) best
        shift none h = (refl, h)
        shift (some b) ((i, e), h) = ((suc i, e), (tt, h))
    pick_all-IsBest (some a ∷ xs) =
        let (r, e, w, n, ns) = pick_all-Improves xs a in
        rw e (
          elim w [
            | inl q ↦ (zero, ap (λ x. some (some x)) (sym q))
            | inr m ↦ later r (some a) xs m
          ],
          (n, ns),
        )
