-- ===== src/Examples/Generator.antt =====
-- Runs of core/src/rng.cpp.
use sentinel_public.Prelude.{inl, ◌%◌, ◌*◌, ◌-◌, ◌^◌, ◌<◌, ◌≡◌, refl, true, [], ok, arith}
use sentinel_public.Prelude.Int.{ℤ, pos, negsuc}
use sentinel_public.Prelude.Text.{Text, codes, text_lt, text_eq}
use sentinel_public.Core.Rng.{
  Draw, RngStreams, uniform, rejection_threshold, draw_from, stream, lower_bound, stream_seed,
  name_hash, mix, rng_at, set_rng, uniform_within, reject_below, range_span, to_signed, offset_from,
  next, xor_shift, scramble,
}
use sentinel_public.Core.Rng.Walk.{after_draws, draws_between, after_draws_reaches}
use sentinel_public.Core.Rng.Uniform.{Between, uniform-returns}
use sentinel_public.Core.Rng.Unbiased.{
  IsFirst, count_words, stands_for, value_of, size, uniform-IsEven,
}
use sentinel_public.Core.Rng.Streams.{IsIsolated, draw_from-IsIsolated}
use sentinel_public.Examples.{is_ok, value_or, returned}

uniform-returns_example :
    (d : Draw ℤ) × (uniform 42 (negsuc 4) (pos 5) ≡ ok d) × Between (negsuc 4) (pos 5) d.value
uniform-returns_example =
    uniform-returns (negsuc 4) (pos 5) 42 (omega arith, omega arith) (omega arith, omega arith)
      (omega arith) (omega arith) (inl (omega arith))

uniform-IsEven_example :
    ((d : Draw ℤ) × (uniform 42 (negsuc 4) (pos 5) ≡ ok d) × IsFirst (negsuc 4) (pos 5) 42 d)
    × (count_words (λ w. stands_for (pos 2) (value_of (negsuc 4) (pos 5) w)) 0 (2 ^ 64)
          * size (negsuc 4) (pos 5)
        ≡ 2 ^ 64 - 2 ^ 64 % size (negsuc 4) (pos 5))
uniform-IsEven_example =
    uniform-IsEven (negsuc 4) (pos 5) 42 (pos 2) (omega arith, omega arith)
      (omega arith, omega arith) (omega arith) (omega arith) (omega arith)
      (omega arith, omega arith)

after_draws_reaches_example : (draws_between 1 2 < 2 ^ 64) × (after_draws (draws_between 1 2) 1 ≡ 2)
after_draws_reaches_example = after_draws_reaches 1 2 (omega arith) (omega arith)

abbrev streams : RngStreams
streams = record { root_seed = 7; entries = [] }

abbrev wind : Text
wind = codes "wind"

abbrev drawn : ℤ × RngStreams
drawn = value_or (pos 0, streams) (draw_from streams wind (pos 1) (pos 6))

draw_from_returns : is_ok (draw_from streams wind (pos 1) (pos 6)) ≡ true
unfolding draw_from stream lower_bound stream_seed name_hash xor_shift scramble mix rng_at set_rng
    uniform uniform_within reject_below rejection_threshold range_span to_signed offset_from next
    text_lt text_eq
draw_from_returns = refl

draw_from-IsIsolated_example : IsIsolated streams wind (pos 1) (pos 6) drawn.0 drawn.1
draw_from-IsIsolated_example =
    draw_from-IsIsolated streams wind (pos 1) (pos 6) tt drawn.0 drawn.1
      (returned (pos 0, streams) (draw_from streams wind (pos 1) (pos 6)) draw_from_returns)
