-- ===== src/Core/Hash.antt =====
-- core/src/hash.cpp: the 64-bit FNV-1a state of `HashBuilder` and its hexadecimal form.
pub mod Laws
use Prim.Native.Nat.{bit_xor}
use sentinel_public.Prelude.{
  ℕ, zero, suc, ◌+◌, ◌-◌, ◌*◌, ◌/◌, ◌%◌, ◌^◌, Bool, true, false, List, [], ◌∷◌, length, ltb,
  if◌then◌else◌,
}
use sentinel_public.Prelude.Int.{ℤ, pos, negsuc}
use sentinel_public.Prelude.Text.{Text}
use sentinel_public.Prelude.Word.{mul64}

abbrev pub offset_basis : ℕ
offset_basis = 14695981039346656037

abbrev pub fnv_prime : ℕ
fnv_prime = 1099511628211

-- The state, `state_`.
pub record HashBuilder : Type 0 where
  pub state : ℕ

abbrev pub new_hash : HashBuilder
new_hash = record { state = offset_basis }

unfoldable pub hash_byte : ℕ → ℕ → ℕ
hash_byte state byte = mul64 (bit_xor state byte) fnv_prime

unfoldable pub hash_data : ℕ → List ℕ → ℕ
unfolding hash_byte
hash_data state [] = state
hash_data state (byte ∷ input) = hash_data (hash_byte state byte) input

unfoldable pub bytes : HashBuilder → List ℕ → HashBuilder
unfolding hash_data
bytes hash input = record { state = hash_data hash.state input }

-- `(value >> (byte * 8)) & 0xff`, for `left` bytes from `byte` on.
unfoldable pub integer_bytes : ℕ → ℕ → ℕ → List ℕ
integer_bytes value byte zero = []
integer_bytes value byte (suc left) =
    (value / 2 ^ (byte * 8) % 256) ∷ integer_bytes value (byte + 1) left

unfoldable pub unsigned_integer : HashBuilder → ℕ → HashBuilder
unfolding bytes integer_bytes
unsigned_integer hash value = bytes hash (integer_bytes value 0 8)

-- `static_cast<std::uint64_t>` of an `std::int64_t`.
unfoldable pub to_unsigned : ℤ → ℕ
to_unsigned (pos n) = n % 2 ^ 64
to_unsigned (negsuc n) = 2 ^ 64 - 1 - n % 2 ^ 64

unfoldable pub signed_integer : HashBuilder → ℤ → HashBuilder
unfolding unsigned_integer to_unsigned
signed_integer hash value = unsigned_integer hash (to_unsigned value)

unfoldable pub boolean : HashBuilder → Bool → HashBuilder
unfolding bytes
boolean hash value = bytes hash ((if value then 1 else 0) ∷ [])

unfoldable pub text : HashBuilder → Text → HashBuilder
unfolding unsigned_integer bytes
text hash value = bytes (unsigned_integer hash (length value)) value

unfoldable pub hex_digit : ℕ → ℕ
hex_digit d = if ltb d 10 then b'0' + d else b'a' + d - 10

-- The lowest `left` hexadecimal digits, the highest first: `std::setw(16)` with fill '0'.
unfoldable pub hex_digits : ℕ → ℕ → Text
unfolding hex_digit
hex_digits value zero = []
hex_digits value (suc left) = hex_digit (value / 16 ^ left % 16) ∷ hex_digits value left

unfoldable pub finish : HashBuilder → Text
unfolding hex_digits
finish hash = hex_digits hash.state 16

unfoldable pub hash_bytes : Text → Text
unfolding finish bytes
hash_bytes value = finish (bytes new_hash value)
