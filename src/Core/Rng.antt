-- ===== src/Core/Rng.antt =====
-- core/src/rng.cpp: the generator `DeterministicRng`, the seeds, and the named streams.
pub mod Walk
pub mod Uniform
pub mod Unbiased
pub mod Entries
pub mod Streams
use Prim.Native.Nat.{bit_xor}
use sentinel_public.Prelude.{
  ℕ, zero, suc, ◌+◌, ◌-◌, ◌*◌, ◌/◌, ◌%◌, ◌^◌, Bool, true, false, ◌&&◌, List, [], ◌∷◌, map, Option,
  none, some, ltb, ◌==◌, if◌then◌else◌, Except, ok, throw, ◌>>=◌, invalid_argument, out_of_fuel,
  get_elem?, set, insert_at,
}
use sentinel_public.Prelude.Int.{ℤ, pos, negsuc, ◌+ℤ◌, ltb_ℤ}
use sentinel_public.Prelude.Text.{Text, text_eq, text_lt}
use sentinel_public.Prelude.Word.{add64, sub64, mul64}
use sentinel_public.Core.Hash.{offset_basis, hash_data, to_unsigned}

abbrev pub golden : ℕ
golden = 0x9e3779b97f4a7c15

-- `value ^ (value >> k)`.
unfoldable pub xor_shift : ℕ → ℕ → ℕ
xor_shift k value = bit_xor value (value / 2 ^ k)

-- The three last lines of `mix` and of `next`.
unfoldable pub scramble : ℕ → ℕ
unfolding xor_shift
scramble value =
    xor_shift 31
      (mul64 (xor_shift 27 (mul64 (xor_shift 30 value) 0xbf58476d1ce4e5b9)) 0x94d049bb133111eb)

unfoldable pub mix : ℕ → ℕ
unfolding scramble
mix value = scramble (add64 value golden)

unfoldable pub name_hash : Text → ℕ
unfolding hash_data
name_hash name = hash_data offset_basis name

unfoldable pub stream_seed : ℕ → Text → ℕ
unfolding mix name_hash
stream_seed root_seed name = mix (bit_xor root_seed (name_hash name))

-- `DeterministicRng` is its state. A draw returns the value and the new state.
pub record Draw {ℓ} (A : Type ℓ) : Type ℓ where
  pub value : A
  pub state : ℕ

unfoldable pub next : ℕ → Draw ℕ
unfolding scramble
next state = let state' = add64 state golden in record { value = scramble state'; state = state' }

-- The `do … while (value < threshold)` loop, with fuel.
unfoldable pub reject_below : ℕ → ℕ → ℕ → Option (Draw ℕ)
unfolding next
reject_below zero threshold state = none
reject_below (suc fuel) threshold state =
    let d = next state in
    let rest = reject_below fuel threshold d.state in if ltb d.value threshold then rest else some d

-- `static_cast<std::int64_t>` of an `std::uint64_t`.
unfoldable pub to_signed : ℕ → ℤ
to_signed w = if ltb w (2 ^ 63) then pos w else negsuc (2 ^ 64 - 1 - w)

unfoldable pub range_span : ℤ → ℤ → ℕ
unfolding to_unsigned
range_span minimum maximum = add64 (sub64 (to_unsigned maximum) (to_unsigned minimum)) 1

-- `-span % span`, the length of the tail that is discarded.
unfoldable pub rejection_threshold : ℕ → ℕ
rejection_threshold span = sub64 0 span % span

-- `minimum + static_cast<std::int64_t>(value % span)`. On a span of more than 2 ^ 63 the sum may leave
-- the type, which is undefined in the source.
unfoldable pub offset_from : ℤ → ℕ → ℕ → ℤ
unfolding to_signed ◌+ℤ◌
offset_from minimum span value = minimum +ℤ to_signed (value % span)

-- Every state is met within 2 ^ 64 draws, so more fuel is never needed.
abbrev pub uniform_fuel : ℕ
uniform_fuel = 2 ^ 64

unfoldable pub uniform_within : ℕ → ℕ → ℤ → ℤ → Except (Draw ℤ)
unfolding range_span rejection_threshold offset_from reject_below next to_signed
uniform_within fuel state minimum maximum =
    let span = range_span minimum maximum in
    if ltb_ℤ maximum minimum
    then throw invalid_argument
    else if span == 0
    then ok (record { value = to_signed (next state).value; state = (next state).state })
    else elim (reject_below fuel (rejection_threshold span) state) [
      | none ↦ throw out_of_fuel
      | some d ↦ ok (record { value = offset_from minimum span d.value; state = d.state })
    ]

unfoldable pub uniform : ℕ → ℤ → ℤ → Except (Draw ℤ)
uniform = uniform_within uniform_fuel

-- `RngStreams::Entry`.
pub record Entry : Type 0 where
  pub name : Text
  pub rng : ℕ

pub record RngStreams : Type 0 where
  pub root_seed : ℕ
  pub entries : List Entry

-- `std::lower_bound` on the entries, which are in the order of their names.
unfoldable pub lower_bound : List Entry → Text → ℕ
lower_bound [] name = 0
lower_bound (e ∷ es) name = if text_lt e.name name then suc (lower_bound es name) else 0

abbrev pub is_named : Option Entry → Text → Bool
is_named none name = false
is_named (some e) name = text_eq e.name name

-- `stream`: the streams with an entry for the name, and the index of that entry, which stands for
-- the reference that the C++ function returns.
unfoldable pub stream : RngStreams → Text → RngStreams × ℕ
unfolding lower_bound stream_seed
stream streams name =
    let position = lower_bound streams.entries name in
    if is_named (get_elem? streams.entries position) name then (streams, position) else (
      record streams {
        entries =
            insert_at streams.entries position
              (record { name = name; rng = stream_seed streams.root_seed name });
      },
      position,
    )

-- Reads and writes through the reference that `stream` returns.
unfoldable pub rng_at : List Entry → ℕ → ℕ → ℕ
rng_at [] i d = d
rng_at (e ∷ es) zero d = e.rng
rng_at (e ∷ es) (suc i) d = rng_at es i d

unfoldable pub set_rng : List Entry → ℕ → ℕ → List Entry
set_rng [] i state = []
set_rng (e ∷ es) zero state = record e { rng = state } ∷ es
set_rng (e ∷ es) (suc i) state = e ∷ set_rng es i state

-- `streams.stream(name).uniform(minimum, maximum)`.
unfoldable pub draw_from : RngStreams → Text → ℤ → ℤ → Except (ℤ × RngStreams)
unfolding rng_at set_rng
draw_from streams name minimum maximum = do
  let r = stream streams name
  d ← uniform (rng_at r.0.entries r.1 0) minimum maximum
  ok (d.value, record r.0 { entries = set_rng r.0.entries r.1 d.state })

unfoldable pub states : RngStreams → List (Text × ℕ)
states streams = map (λ e. (e.name, e.rng)) streams.entries
