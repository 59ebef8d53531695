-- ===== src/Core/Rng/Uniform.antt =====
-- `uniform` of core/src/rng.cpp: it returns, stays in its range and prefers no value.
use native.Mathlib.Nat.{mod-add-div', mod-lt}
use sentinel_public.Prelude.{
  ℕ, zero, suc, ◌+◌, ◌-◌, ◌%◌, ◌^◌, ◌≤◌, ◌<◌, ◌≡◌, ◌⊎◌, ap, true, false, some, ltb, ◌==◌, ==_iff,
  Bool-cases, inl, inr, ok, throw, invalid_argument, arith,
}
use sentinel_public.Prelude.Int.{ℤ, pos, ◌+ℤ◌, +ℤ_parts, ◌≤ℤ◌, pos_part, neg_part, ltb_ℤ}
use sentinel_public.Prelude.Bits.{bit_xor-lt}
use sentinel_public.Core.Rng.{
  next, scramble, Draw, reject_below, to_signed, range_span, rejection_threshold, offset_from,
  uniform_within, uniform, uniform_fuel,
}
use sentinel_public.Core.Rng.Walk.{after_draws, draws_between, after_draws_reaches}

-- The values of `std::int64_t`.
abbrev pub IsInt64 : ℤ → Type 0
IsInt64 z = (pos_part z < 2 ^ 63) × (neg_part z ≤ 2 ^ 63)

abbrev pub Between : ℤ → ℤ → ℤ → Type 0
Between lo hi z = (lo ≤ℤ z) × (z ≤ℤ hi)

-- If some draw within the fuel is accepted, the loop returns an accepted draw.
reject_below-returns :
    (k fuel threshold s : ℕ)
    → k < fuel
    → threshold ≤ (next (after_draws k s)).value
    → (d : Draw ℕ) × (reject_below fuel threshold s ≡ some d) × (threshold ≤ d.value)
unfolding reject_below
reject_below-returns k zero threshold s h a = absurd (omega arith)
reject_below-returns zero (suc fuel) threshold s h a = (next s, ground arith, a)
reject_below-returns (suc k) (suc fuel) threshold s h a =
    elim (Bool-cases (ltb (next s).value threshold)) [
      | inl again ↦
          let r = reject_below-returns k fuel threshold (next s).state (omega arith) a in
          (r.0, rw again r.1, r.2)
      | inr stop ↦ (next s, rw stop, ground arith)
    ]

-- A returned draw is accepted.
reject_below-accepted :
    (fuel threshold s : ℕ) (d : Draw ℕ)
    → reject_below fuel threshold s ≡ some d
    → threshold ≤ d.value
unfolding reject_below
reject_below-accepted zero threshold s d e = cc
reject_below-accepted (suc fuel) threshold s d e =
    ground (arith, reject_below-accepted fuel threshold (next s).state d)

-- The discarded tail is shorter than half of the words.
rejection_threshold-le : (span : ℕ) → 0 < span → span < 2 ^ 64 → rejection_threshold span ≤ 2 ^ 63
unfolding rejection_threshold
rejection_threshold-le span pos_span h =
    grind (arith, mod-add-div' (2 ^ 64 - span) span, mod-lt (2 ^ 64 - span) pos_span)

high_draw : 2 ^ 63 ≤ (next 0).value
unfolding next scramble
high_draw = omega arith

-- From any state the loop meets an accepted value within 2 ^ 64 draws.
loop-returns :
    (span s : ℕ)
    → 0 < span
    → span < 2 ^ 64
    → s < 2 ^ 64
    → (d : Draw ℕ) × (reject_below uniform_fuel (rejection_threshold span) s ≡ some d)
      × (rejection_threshold span ≤ d.value)
loop-returns span s p h hs =
    let (below, reached) = after_draws_reaches s 0 hs (omega arith) in
    reject_below-returns (draws_between s 0) (2 ^ 64) (rejection_threshold span) s below
      (rw reached (omega (arith, high_draw, rejection_threshold-le span p h)))

-- The span is the number of values in the range, or 0 where that is 2 ^ 64.
range_span_lem :
    (lo hi : ℤ)
    → IsInt64 lo
    → IsInt64 hi
    → lo ≤ℤ hi
    → range_span lo hi ≡ (pos_part hi + neg_part lo - pos_part lo - neg_part hi + 1) % 2 ^ 64
unfolding range_span
range_span_lem lo hi hl hh h = ground arith

-- A range of at most 2 ^ 63 values, on which the source's sum does not overflow.
abbrev pub IsNarrow : ℤ → ℤ → Type 0
IsNarrow lo hi = pos_part hi + neg_part lo < pos_part lo + neg_part hi + 2 ^ 63

-- The remainder as a signed number is itself.
pub remainder_exact : (r : ℕ) → r < 2 ^ 63 → to_signed r ≡ pos r
unfolding to_signed
remainder_exact r h = ground arith

pub range_span_narrow :
    (lo hi : ℤ)
    → IsInt64 lo
    → IsInt64 hi
    → lo ≤ℤ hi
    → IsNarrow lo hi
    → range_span lo hi + pos_part lo + neg_part hi ≡ pos_part hi + neg_part lo + 1
range_span_narrow lo hi hl hh h n = omega (arith, range_span_lem lo hi hl hh h)

pub offset_from_exact :
    (lo : ℤ) (span v : ℕ) → 0 < span → span ≤ 2 ^ 63 → offset_from lo span v ≡ lo +ℤ pos (v % span)
unfolding offset_from
offset_from_exact lo span v p h =
    ap (λ x. lo +ℤ x) (remainder_exact (v % span) (omega (arith, mod-lt v {m = span} p)))

offset_from-Between :
    (lo hi : ℤ) (v : ℕ)
    → IsInt64 lo
    → IsInt64 hi
    → lo ≤ℤ hi
    → IsNarrow lo hi
    → Between lo hi (offset_from lo (range_span lo hi) v)
offset_from-Between lo hi v hl hh h n =
    let span = range_span lo hi in
    let size = range_span_narrow lo hi hl hh h n in
    let exact = offset_from_exact lo span v (omega arith) (omega arith) in
    let small : v % span < span = mod-lt v {m = span} (omega arith) in
    rw exact (omega (arith, +ℤ_parts lo (pos (v % span))))

to_signed-IsInt64 : (w : ℕ) → w < 2 ^ 64 → IsInt64 (to_signed w)
unfolding to_signed
to_signed-IsInt64 w h = ground arith

scramble-lt : (v : ℕ) → scramble v < 2 ^ 64
unfolding scramble
scramble-lt v = bit_xor-lt 64 _ _ (omega arith) (omega arith)

next-value-lt : (s : ℕ) → (next s).value < 2 ^ 64
unfolding next
next-value-lt s = scramble-lt _

not_empty : (lo hi : ℤ) → lo ≤ℤ hi → ltb_ℤ hi lo ≡ false
not_empty lo hi h = ground arith

-- The whole of `std::int64_t` is the one range whose span wraps to 0.
whole_range :
    (lo hi z : ℤ)
    → IsInt64 lo
    → IsInt64 hi
    → IsInt64 z
    → lo ≤ℤ hi
    → range_span lo hi ≡ 0
    → Between lo hi z
whole_range lo hi z hl hh hz h e = omega (arith, range_span_lem lo hi hl hh h)

range_span-lt : (lo hi : ℤ) → range_span lo hi < 2 ^ 64
unfolding range_span
range_span-lt lo hi = omega arith

-- The branches of `uniform_within`, at any fuel.
module _ (fuel : ℕ) (lo hi : ℤ) (s : ℕ) where
  within_whole :
      lo ≤ℤ hi
      → (range_span lo hi == 0) ≡ true
      → uniform_within fuel s lo hi
        ≡ ok (record { value = to_signed (next s).value; state = (next s).state })
  unfolding uniform_within
  within_whole h e = rw (not_empty lo hi h, e)

  within_loop :
      (d : Draw ℕ)
      → lo ≤ℤ hi
      → (range_span lo hi == 0) ≡ false
      → reject_below fuel (rejection_threshold (range_span lo hi)) s ≡ some d
      → uniform_within fuel s lo hi
        ≡ ok (record { value = offset_from lo (range_span lo hi) d.value; state = d.state })
  unfolding uniform_within
  within_loop d h e r = rw (not_empty lo hi h, e, r)

  within_empty : ¬ (lo ≤ℤ hi) → uniform_within fuel s lo hi ≡ throw invalid_argument
  unfolding uniform_within
  within_empty h = let empty : ltb_ℤ hi lo ≡ true = ground arith in rw empty

-- On a narrow range the loop ends, and `uniform` answers from its draw.
pub uniform_loops :
    (lo hi : ℤ) (s : ℕ)
    → IsInt64 lo
    → IsInt64 hi
    → s < 2 ^ 64
    → lo ≤ℤ hi
    → IsNarrow lo hi
    → (d : Draw ℕ) × (reject_below uniform_fuel (rejection_threshold (range_span lo hi)) s ≡ some d)
      × (uniform s lo hi
          ≡ ok (record { value = offset_from lo (range_span lo hi) d.value; state = d.state }))
unfolding uniform
uniform_loops lo hi s hl hh hs h narrow =
    let size = range_span_narrow lo hi hl hh h narrow in
    let loops : (range_span lo hi == 0) ≡ false = ground arith in
    let r = loop-returns (range_span lo hi) s (omega arith) (range_span-lt lo hi) hs in
    (r.0, r.1, within_loop uniform_fuel lo hi s r.0 h loops r.1)

-- On a range of 64-bit integers that is not empty and has at most 2 ^ 63 values, or is the whole type,
-- `uniform` returns from every 64-bit state, with a value of the range. On other ranges the source's
-- sum may overflow.
pub uniform-returns :
    (lo hi : ℤ) (s : ℕ)
    → IsInt64 lo
    → IsInt64 hi
    → s < 2 ^ 64
    → lo ≤ℤ hi
    → IsNarrow lo hi ⊎ (range_span lo hi ≡ 0)
    → (d : Draw ℤ) × (uniform s lo hi ≡ ok d) × Between lo hi d.value
unfolding uniform
uniform-returns lo hi s hl hh hs h (inr whole) = (
  record { value = to_signed (next s).value; state = (next s).state },
  within_whole uniform_fuel lo hi s h ((==_iff _ 0).1 whole),
  whole_range lo hi _ hl hh (to_signed-IsInt64 _ (next-value-lt s)) h whole,
)
uniform-returns lo hi s hl hh hs h (inl narrow) =
    let r = uniform_loops lo hi s hl hh hs h narrow in
    (
      record { value = offset_from lo (range_span lo hi) r.0.value; state = r.0.state },
      r.2,
      offset_from-Between lo hi r.0.value hl hh h narrow,
    )

-- An empty range is refused.
uniform_empty : (lo hi : ℤ) (s : ℕ) → ¬ (lo ≤ℤ hi) → uniform s lo hi ≡ throw invalid_argument
unfolding uniform
uniform_empty lo hi s h = within_empty uniform_fuel lo hi s h
