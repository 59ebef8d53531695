-- ===== src/Core/Rng/Unbiased.antt =====
-- `uniform` of core/src/rng.cpp shares the words that it keeps out evenly.
use native.Mathlib.Nat.{
  div-add-mod', mod-eq_of_lt, add-mod_right, zero-add, add-zero, zero-mul, add_comm,
}
use native.Mathlib.Numerals.{add-one}
use sentinel_public.Prelude.{
  ℕ, zero, suc, ◌+◌, ◌-◌, ◌*◌, ◌/◌, ◌%◌, ◌^◌, ◌≤◌, ◌<◌, ◌≡◌, refl, ap, ◌∙◌, sym, subst, Bool, true,
  false, Option, none, some, ltb, ◌==◌, if◌then◌else◌, ok, Bool-cases, inl, inr, some_inj, arith,
}
use sentinel_public.Prelude.Int.{ℤ, pos, ◌+ℤ◌, ◌≤ℤ◌, eq_ℤ, pos_part, neg_part}
use sentinel_public.Core.Rng.{
  Draw, next, reject_below, rejection_threshold, range_span, offset_from, uniform,
}
use sentinel_public.Core.Rng.Walk.{after_draws}
use sentinel_public.Core.Rng.Uniform.{
  IsInt64, IsNarrow, Between, range_span_narrow, offset_from_exact, uniform_loops,
}

abbrev count_of : Bool → ℕ
count_of b = if b then 1 else 0

-- How many of the words `from`, …, `from + count - 1` pass the test.
pub count_words : (ℕ → Bool) → ℕ → ℕ → ℕ
count_words p from zero = 0
count_words p from (suc count) = count_of (p from) + count_words p (from + 1) count

suc-mul' : (k n : ℕ) → suc k * n ≡ n + k * n
suc-mul' k n = omega arith

suc-add : (m n : ℕ) → suc (m + n) ≡ suc m + n
suc-add m n = omega arith

shift : (a m : ℕ) → a + 1 + m ≡ a + suc m
shift a m = omega arith

module _ (p : ℕ → Bool) where
  count_words-append :
      (from m n : ℕ)
      → count_words p from (m + n) ≡ count_words p from m + count_words p (from + m) n
  unfolding count_words
  count_words-append from zero n =
      ap (count_words p from) (zero-add n)
      ∙ ap (λ (t : ℕ). count_words p t n) (sym (add-zero from))
      ∙ sym (zero-add _)
  count_words-append from (suc m) n = omega (
    arith,
    ap (count_words p from) (suc-add m n),
    count_words-append (from + 1) m n,
    ap (λ (t : ℕ). count_words p t n) (shift from m),
  )

  count_words_one : (n : ℕ) → count_words p n 1 ≡ count_of (p n)
  unfolding count_words
  count_words_one n = add-zero (count_of (p n))

  count_words-last : (n : ℕ) → count_words p 0 (suc n) ≡ count_words p 0 n + count_of (p n)
  count_words-last n = omega (
    arith,
    ap (count_words p 0) (add-one n),
    count_words-append 0 n 1,
    ap (λ (t : ℕ). count_words p t 1) (zero-add n),
    count_words_one n,
  )

  count_words_none :
      (from n : ℕ) → ((v : ℕ) → v < from + n → p v ≡ false) → count_words p from n ≡ 0
  unfolding count_words
  count_words_none from zero h = refl
  count_words_none from (suc n) h = omega (
    arith,
    ap (λ (b : Bool). count_of b) (h from (omega arith)),
    count_words_none (from + 1) n (λ v k. h v (omega arith)),
  )

  count_words_same :
      (q : ℕ → Bool) (from n : ℕ)
      → ((v : ℕ) → from ≤ v → p v ≡ q v)
      → count_words p from n ≡ count_words q from n
  unfolding count_words
  count_words_same q from zero h = refl
  count_words_same q from (suc n) h = rw (h from (omega arith)) (
      ap (λ (t : ℕ). count_of (q from) + t)
        (count_words_same q (from + 1) n (λ v k. h v (omega arith))))

-- The words of one remainder.
module _ (span r : ℕ) where
  abbrev has_remainder : ℕ → Bool
  has_remainder v = v % span == r

  has_remainder-add_span : (v : ℕ) → has_remainder (v + span) ≡ has_remainder v
  has_remainder-add_span v = rw (add-mod_right v span) refl

  below_span : (n : ℕ) → n ≤ span → count_words has_remainder 0 n ≡ (if ltb r n then 1 else 0)
  unfolding count_words
  below_span zero h = ground arith
  below_span (suc n) h = ground (
    arith,
    count_words-last has_remainder n,
    below_span n (omega arith),
    mod-eq_of_lt {n = n} {m = span},
  )

  -- Moving the window by one drops a word and gains one with the same remainder.
  window : (from : ℕ) → r < span → count_words has_remainder from span ≡ 1
  window zero h = below_span span (omega arith) ∙ ground arith
  window (suc from) h = omega (
    arith,
    window from h,
    ap (λ (b : Bool). count_of b) (has_remainder-add_span from),
    count_words-append has_remainder from span 1,
    count_words_one has_remainder from,
    count_words_one has_remainder (from + span),
    count_words-append has_remainder from 1 span,
    ap (count_words has_remainder from) (add_comm 1 span),
    ap (λ (t : ℕ). count_words has_remainder t span) (add-one from),
  )

  -- A whole number of spans meets each remainder once for each span.
  count_words-mul : (k from : ℕ) → r < span → count_words has_remainder from (k * span) ≡ k
  count_words-mul zero from h = zero_words from (zero-mul span)
    where
      zero_words : (a : ℕ) {n : ℕ} → n ≡ 0 → count_words has_remainder a n ≡ 0
      zero_words a e = rw e (unfold count_words in refl)
  count_words-mul (suc k) from h = omega (
    arith,
    ap (count_words has_remainder from) (suc-mul' k span),
    count_words-append has_remainder from span (k * span),
    window from h,
    count_words-mul k (from + span) h,
  )

-- The number of values of a range.
abbrev pub size : ℤ → ℤ → ℕ
size lo hi = pos_part hi + neg_part lo + 1 - pos_part lo - neg_part hi

-- What a word stands for: the words below the remainder of 2 ^ 64 by the size stand for no value, and
-- the others count through the range again and again.
abbrev pub value_of : ℤ → ℤ → ℕ → Option ℤ
value_of lo hi word =
    if ltb word (2 ^ 64 % size lo hi) then none else some (lo +ℤ pos (word % size lo hi))

abbrev pub stands_for : ℤ → Option ℤ → Bool
stands_for z none = false
stands_for z (some a) = eq_ℤ a z

-- The word of the draw after `k` others.
abbrev pub word_at : ℕ → ℕ → ℕ
word_at s k = (next (after_draws k s)).value

-- The draw has the value of the first word that stands for one, and the state after it.
abbrev pub IsFirst : ℤ → ℤ → ℕ → Draw ℤ → Type 0
IsFirst lo hi s d =
    (k : ℕ) × ((j : ℕ) → j < k → value_of lo hi (word_at s j) ≡ none)
    × (value_of lo hi (word_at s k) ≡ some d.value)
    × (d.state ≡ (next (after_draws k s)).state)

threshold_lem : (span : ℕ) → 0 < span → span ≤ 2 ^ 63 → rejection_threshold span ≡ 2 ^ 64 % span
unfolding rejection_threshold
threshold_lem span p h =
    ap (λ (t : ℕ). t % span) (wraps span p h)
    ∙ sym (add-mod_right (2 ^ 64 - span) span)
    ∙ ap (λ (t : ℕ). t % span) (whole span h)
  where
    wraps : (n : ℕ) → 0 < n → n ≤ 2 ^ 63 → (0 + 2 ^ 64 - n) % 2 ^ 64 ≡ 2 ^ 64 - n
    wraps n q k = omega arith

    whole : (n : ℕ) → n ≤ 2 ^ 63 → 2 ^ 64 - n + n ≡ 2 ^ 64
    whole n k = omega arith

shift_words :
    (threshold s k : ℕ)
    → word_at s 0 < threshold
    → ((j : ℕ) → j < k → word_at (next s).state j < threshold)
    → (j : ℕ) → j < suc k
    → word_at s j < threshold
shift_words threshold s k first rest zero h = first
shift_words threshold s k first rest (suc j) h = rest j (omega arith)

-- The loop returns the first word that is not below the threshold.
reject_below-first :
    (fuel threshold s : ℕ) (d : Draw ℕ)
    → reject_below fuel threshold s ≡ some d
    → (k : ℕ) × ((j : ℕ) → j < k → word_at s j < threshold)
      × (threshold ≤ word_at s k)
      × (d ≡ next (after_draws k s))
unfolding reject_below
reject_below-first zero threshold s d e = cc
reject_below-first (suc fuel) threshold s d e =
    let rest = reject_below fuel threshold (next s).state in
    let below_of : ltb (next s).value threshold ≡ true → (next s).value < threshold =
      λ h. ground arith in
    let above_of : ltb (next s).value threshold ≡ false → threshold ≤ (next s).value =
      λ h. ground arith in
    elim (Bool-cases (ltb (next s).value threshold)) [
      | inl again ↦
          let r =
            reject_below-first fuel threshold (next s).state d
              (sym (ap (λ b. if b then rest else some (next s)) again) ∙ e) in
          (suc r.0, shift_words threshold s r.0 (below_of again) r.1, r.2, r.3)
      | inr stop ↦ (
        0,
        λ j h. absurd (omega arith),
        above_of stop,
        some_inj (sym e ∙ ap (λ b. if b then rest else some (next s)) stop),
      )
    ]

same_test :
    (lo z : ℤ) (r : ℕ)
    → lo ≤ℤ z
    → eq_ℤ (lo +ℤ pos r) z ≡ (r == (pos_part z + neg_part lo - pos_part lo - neg_part z))
unfolding ◌+ℤ◌
same_test lo z r h = ground arith

module _ (lo hi : ℤ) where
  value_of-none : (w : ℕ) → w < 2 ^ 64 % size lo hi → value_of lo hi w ≡ none
  value_of-none w h = let below : ltb w (2 ^ 64 % size lo hi) ≡ true = ground arith in rw below refl

  value_of-some :
      (w : ℕ) → 2 ^ 64 % size lo hi ≤ w → value_of lo hi w ≡ some (lo +ℤ pos (w % size lo hi))
  value_of-some w h = let kept : ltb w (2 ^ 64 % size lo hi) ≡ false = ground arith in rw kept refl

  -- A word above the threshold stands for the value that its remainder leads to.
  stands_for-remainder :
      (z : ℤ) (w : ℕ)
      → lo ≤ℤ z
      → 2 ^ 64 % size lo hi ≤ w
      → stands_for z (value_of lo hi w)
        ≡ has_remainder (size lo hi) (pos_part z + neg_part lo - pos_part lo - neg_part z) w
  stands_for-remainder z w hz h = rw (value_of-some w h) (same_test lo z (w % size lo hi) hz)

  -- Every value of the range has the same number of words.
  count_words_even :
      (z : ℤ)
      → Between lo hi z
      → count_words (λ w. stands_for z (value_of lo hi w)) 0 (2 ^ 64) * size lo hi
        ≡ 2 ^ 64 - 2 ^ 64 % size lo hi
  count_words_even z hz =
      let n = size lo hi in
      let rest = 2 ^ 64 % n in
      let rounds = 2 ^ 64 / n in
      let r = pos_part z + neg_part lo - pos_part lo - neg_part z in
      let test : ℕ → Bool = λ w. stands_for z (value_of lo hi w) in
      let cut : rest + rounds * n ≡ 2 ^ 64 = omega (arith, div-add-mod' (2 ^ 64) n) in
      let low : count_words test 0 rest ≡ 0 =
        count_words_none test 0 rest
          (λ w h. ap (stands_for z) (value_of-none w (subst (λ t. w < t) (zero-add rest) h))) in
      let high : count_words test rest (rounds * n) ≡ rounds =
        count_words_same test (has_remainder n r) rest (rounds * n)
          (λ w h. stands_for-remainder z w hz.0 h)
        ∙ count_words-mul n r rounds rest (omega arith) in
      let whole : count_words test 0 (2 ^ 64) ≡ rounds = omega (
        arith,
        low,
        high,
        ap (count_words test 0) cut,
        count_words-append test 0 rest (rounds * n),
        ap (λ (t : ℕ). count_words test t (rounds * n)) (zero-add rest),
      ) in
      ap (λ (t : ℕ). t * n) whole ∙ omega (arith, cut)

-- On a range of 64-bit integers that is not empty and has at most 2 ^ 63 values, `uniform` returns from
-- every 64-bit state, with the value of the first word drawn that stands for one; and each value of the
-- range has equally many of the 2 ^ 64 words that stand for it: times the size of the range, they are
-- all the words less the remainder of 2 ^ 64 by the size.
pub uniform-IsEven :
    (lo hi : ℤ) (s : ℕ) (z : ℤ)
    → IsInt64 lo
    → IsInt64 hi
    → s < 2 ^ 64
    → lo ≤ℤ hi
    → IsNarrow lo hi
    → Between lo hi z
    → ((d : Draw ℤ) × (uniform s lo hi ≡ ok d) × IsFirst lo hi s d)
      × (count_words (λ w. stands_for z (value_of lo hi w)) 0 (2 ^ 64) * size lo hi
          ≡ 2 ^ 64 - 2 ^ 64 % size lo hi)
uniform-IsEven lo hi s z hl hh hs h narrow hz =
    let span = range_span lo hi in
    let spans = range_span_narrow lo hi hl hh h narrow in
    let same : span ≡ size lo hi = omega arith in
    let limit : rejection_threshold span ≡ 2 ^ 64 % size lo hi =
      threshold_lem span (omega arith) (omega arith) ∙ ap (λ (n : ℕ). 2 ^ 64 % n) same in
    let r = uniform_loops lo hi s hl hh hs h narrow in
    let f = reject_below-first (2 ^ 64) (rejection_threshold span) s r.0 r.1 in
    (
      (
        record { value = offset_from lo span r.0.value; state = r.0.state },
        r.2,
        (
          f.0,
          λ j k. value_of-none lo hi _ (subst (λ t. word_at s j < t) limit (f.1 j k)),
          value_of-some lo hi _ (subst (λ t. t ≤ word_at s f.0) limit f.2)
              ∙ ap some (
                  ap (λ (n : ℕ). lo +ℤ pos (word_at s f.0 % n)) (sym same)
                  ∙ ap (λ (d : Draw ℕ). lo +ℤ pos (d.value % span)) (sym f.3)
                  ∙ sym (offset_from_exact lo span r.0.value (omega arith) (omega arith))),
          ap (λ (d : Draw ℕ). d.state) f.3,
        ),
      ),
      count_words_even lo hi z hz,
    )
