-- ===== src/Examples/Digests.antt =====
-- Runs of core/src/hash.cpp.
use sentinel_public.Prelude.{ℕ, List, ◌≡◌, ◌≢◌, [], ◌∷◌, ◌++◌, All, length, arith}
use sentinel_public.Core.Hash.{HashBuilder, finish, hash_bytes, bytes, unsigned_integer}
use sentinel_public.Core.Hash.Laws.{
  IsHex, from_bytes, finish_distinct, finish_form, hash_bytes_one_byte, IsByte,
  unsigned_integer-Encodes,
}

abbrev builder : HashBuilder
builder = record { state = 14695981039346656037 }

hash_bytes_one_byte_example :
    hash_bytes ((1 ∷ []) ++ 2 ∷ 3 ∷ []) ≢ hash_bytes ((1 ∷ []) ++ 9 ∷ 3 ∷ [])
hash_bytes_one_byte_example =
    hash_bytes_one_byte (1 ∷ []) (3 ∷ []) 2 9 (omega arith) (omega arith) (omega arith, tt)
      (λ e. omega arith)

finish_distinct_example : finish (record { state = 5 }) ≢ finish (record { state = 6 })
finish_distinct_example = finish_distinct 5 6 (omega arith) (omega arith) (λ e. omega arith)

finish_form_example : (length (finish builder) ≡ 16) × All IsHex (finish builder)
finish_form_example = finish_form builder

unsigned_integer-Encodes_example :
    (input : List ℕ) × ((hash : HashBuilder) → unsigned_integer hash 258 ≡ bytes hash input)
    × (length input ≡ 8)
    × All IsByte input
    × (from_bytes input ≡ 258)
unsigned_integer-Encodes_example = unsigned_integer-Encodes 258 (omega arith)
