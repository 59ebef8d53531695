-- ===== src/Core/Hash/Laws.antt =====
-- What the hash of core/src/hash.cpp keeps apart.
use Prim.Native.Nat.{bit_xor}
use native.Mathlib.Nat.{div-div-eq-div-mul, div-add-mod', pow-suc, one-le-pow}
use sentinel_public.Prelude.{
  ◌≢◌, ◌⊎◌, ℕ, zero, suc, ◌+◌, ◌*◌, ◌/◌, ◌%◌, ◌^◌, ◌≤◌, ◌<◌, ◌≡◌, refl, sym, ap, ◌∙◌, List, [], ◌∷◌,
  ◌++◌, All, length, arith,
}
use sentinel_public.Prelude.Bits.{bit_xor-lt, bit_xor_injective, bit_xor_comm}
use sentinel_public.Core.Hash.{
  HashBuilder, fnv_prime, offset_basis, hash_byte, hash_data, bytes, integer_bytes,
  unsigned_integer, hex_digit, hex_digits, finish, hash_bytes,
}

abbrev pub IsByte : ℕ → Type 0
IsByte b = b < 256

-- The prime is odd, so its product can be divided out.
mul_injective :
    (s t : ℕ) → s < 2 ^ 64 → t < 2 ^ 64 → s * fnv_prime % 2 ^ 64 ≡ t * fnv_prime % 2 ^ 64 → s ≡ t
mul_injective s t hs ht e = omega arith

pub hash_byte-lt : (s b : ℕ) → hash_byte s b < 2 ^ 64
unfolding hash_byte
hash_byte-lt s b = omega arith

pub hash_data-lt : (s : ℕ) (input : List ℕ) → s < 2 ^ 64 → hash_data s input < 2 ^ 64
unfolding hash_data
hash_data-lt s [] h = h
hash_data-lt s (b ∷ input) h = hash_data-lt (hash_byte s b) input (hash_byte-lt s b)

hash_byte_state :
    (s t b : ℕ) → s < 2 ^ 64 → t < 2 ^ 64 → b < 256 → hash_byte s b ≡ hash_byte t b → s ≡ t
unfolding hash_byte
hash_byte_state s t b hs ht hb e = bit_xor_injective s t b (
    mul_injective (bit_xor s b) (bit_xor t b) (bit_xor-lt 64 s b hs (omega arith))
      (bit_xor-lt 64 t b ht (omega arith)) e)

hash_byte_input :
    (s a b : ℕ) → s < 2 ^ 64 → a < 256 → b < 256 → hash_byte s a ≡ hash_byte s b → a ≡ b
unfolding hash_byte
hash_byte_input s a b hs ha hb e = bit_xor_injective a b s (
    bit_xor_comm a s
    ∙ mul_injective (bit_xor s a) (bit_xor s b) (bit_xor-lt 64 s a hs (omega arith))
        (bit_xor-lt 64 s b hs (omega arith)) e
    ∙ bit_xor_comm s b)

-- Two states that differ stay different over any common continuation of the input.
pub hash_data_state :
    (input : List ℕ) (s t : ℕ)
    → All IsByte input
    → s < 2 ^ 64
    → t < 2 ^ 64
    → hash_data s input ≡ hash_data t input
    → s ≡ t
unfolding hash_data
hash_data_state [] s t h hs ht e = e
hash_data_state (b ∷ input) s t h hs ht e = hash_byte_state s t b hs ht h.0 (
    hash_data_state input (hash_byte s b) (hash_byte t b) h.1 (hash_byte-lt s b) (hash_byte-lt t b)
      e)

pub hash_data-append :
    (s : ℕ) (xs ys : List ℕ) → hash_data s (xs ++ ys) ≡ hash_data (hash_data s xs) ys
unfolding hash_data
hash_data-append s [] ys = refl
hash_data-append s (x ∷ xs) ys = hash_data-append (hash_byte s x) xs ys

hex_digit_injective : (a b : ℕ) → a < 16 → b < 16 → hex_digit a ≡ hex_digit b → a ≡ b
unfolding hex_digit
hex_digit_injective a b ha hb e = ground arith

-- Any two blocks of input that differ in one byte leave different states.
pub hash_data_one_byte :
    (s : ℕ) (xs ys : List ℕ) (a b : ℕ)
    → s < 2 ^ 64
    → IsByte a
    → IsByte b
    → All IsByte ys
    → hash_data s (xs ++ a ∷ ys) ≡ hash_data s (xs ++ b ∷ ys)
    → a ≡ b
unfolding hash_data
hash_data_one_byte s xs ys a b hs ha hb h e =
    let mid = hash_data s xs in
    let hm : mid < 2 ^ 64 = hash_data-lt s xs hs in
    hash_byte_input mid a b hm ha hb (
      hash_data_state ys (hash_byte mid a) (hash_byte mid b) h (hash_byte-lt mid a)
        (hash_byte-lt mid b)
        (sym (hash_data-append s xs (a ∷ ys)) ∙ e ∙ hash_data-append s xs (b ∷ ys)))

digit_split : (a p : ℕ) → 0 < p → a % (p * 16) ≡ a / p % 16 * p + a % p
digit_split a p h = omega (
  arith,
  div-div-eq-div-mul a p 16,
  div-add-mod' a (p * 16),
  div-add-mod' a p,
  ap (λ (t : ℕ). t * p) (div-add-mod' (a / p) 16),
  ap (λ (t : ℕ). t * (p * 16)) (div-div-eq-div-mul a p 16),
)

hex_digits_value : (n a b : ℕ) → hex_digits a n ≡ hex_digits b n → a % 16 ^ n ≡ b % 16 ^ n
unfolding hex_digits
hex_digits_value zero a b e = omega arith
hex_digits_value (suc n) a b e =
    let digit : a / 16 ^ n % 16 ≡ b / 16 ^ n % 16 =
      hex_digit_injective _ _ (omega arith) (omega arith) (cc) in
    let rest : a % 16 ^ n ≡ b % 16 ^ n = hex_digits_value n a b (cc) in
    rw (
      pow-suc 16 n,
      digit_split a (16 ^ n) (one-le-pow n 16 (omega arith)),
      digit_split b (16 ^ n) (one-le-pow n 16 (omega arith)),
      digit,
      rest,
    )

pub finish-injective :
    (g h : HashBuilder) → g.state < 2 ^ 64 → h.state < 2 ^ 64 → finish g ≡ finish h → g ≡ h
unfolding finish
finish-injective g h hg hh e =
    let same : g.state ≡ h.state = omega (arith, hex_digits_value 16 g.state h.state e) in
    λ i. record { state = same i }

length-hex_digits : (v n : ℕ) → length (hex_digits v n) ≡ n
unfolding hex_digits
length-hex_digits v zero = refl
length-hex_digits v (suc n) = ap suc (length-hex_digits v n)

abbrev pub IsHex : ℕ → Type 0
IsHex c = ((b'0' ≤ c) × (c ≤ b'9')) ⊎ ((b'a' ≤ c) × (c ≤ b'f'))

hex_digits-IsHex : (v n : ℕ) → All IsHex (hex_digits v n)
unfolding hex_digits hex_digit
hex_digits-IsHex v zero = tt
hex_digits-IsHex v (suc n) = (ground arith, hex_digits-IsHex v n)

-- `finish` always returns sixteen lower-case hexadecimal digits.
pub finish_form : (h : HashBuilder) → (length (finish h) ≡ 16) × All IsHex (finish h)
unfolding finish
finish_form h = (length-hex_digits h.state 16, hex_digits-IsHex h.state 16)

hash_bytes_same :
    (xs ys : List ℕ) (a b : ℕ)
    → IsByte a
    → IsByte b
    → All IsByte ys
    → hash_bytes (xs ++ a ∷ ys) ≡ hash_bytes (xs ++ b ∷ ys)
    → a ≡ b
unfolding hash_bytes bytes
hash_bytes_same xs ys a b ha hb h e =
    hash_data_one_byte offset_basis xs ys a b (omega arith) ha hb h (
      ap HashBuilder.state (
        finish-injective (record { state = hash_data offset_basis (xs ++ a ∷ ys) })
          (record { state = hash_data offset_basis (xs ++ b ∷ ys) })
          (hash_data-lt _ (xs ++ a ∷ ys) (omega arith))
          (hash_data-lt _ (xs ++ b ∷ ys) (omega arith)) e))

-- The number that bytes stand for, the lowest first.
abbrev pub from_bytes : List ℕ → ℕ
from_bytes [] = 0
from_bytes (b ∷ bs) = b + 256 * from_bytes bs

pub from_bytes-integer_bytes : (v : ℕ) → v < 2 ^ 64 → from_bytes (integer_bytes v 0 8) ≡ v
unfolding integer_bytes
from_bytes-integer_bytes v h = omega arith

integer_bytes-AreBytes : (v byte n : ℕ) → All IsByte (integer_bytes v byte n)
unfolding integer_bytes
integer_bytes-AreBytes v byte zero = tt
integer_bytes-AreBytes v byte (suc n) = (omega arith, integer_bytes-AreBytes v (byte + 1) n)

-- `unsigned_integer` feeds every hash one and the same eight bytes for a 64-bit argument, and they stand
-- for that argument, the lowest first.
pub unsigned_integer-Encodes :
    (v : ℕ)
    → v < 2 ^ 64
    → (input : List ℕ) × ((hash : HashBuilder) → unsigned_integer hash v ≡ bytes hash input)
      × (length input ≡ 8)
      × All IsByte input
      × (from_bytes input ≡ v)
unfolding unsigned_integer
unsigned_integer-Encodes v h = (
  integer_bytes v 0 8,
  λ hash. refl,
  unfold integer_bytes in refl,
  integer_bytes-AreBytes v 0 8,
  from_bytes-integer_bytes v h,
)

-- Two byte strings that differ in exactly one byte have different `hash_bytes`.
pub hash_bytes_one_byte :
    (xs ys : List ℕ) (a b : ℕ)
    → IsByte a
    → IsByte b
    → All IsByte ys
    → a ≢ b
    → hash_bytes (xs ++ a ∷ ys) ≢ hash_bytes (xs ++ b ∷ ys)
hash_bytes_one_byte xs ys a b ha hb hs n e = n (hash_bytes_same xs ys a b ha hb hs e)

-- Two states of 64 bits that differ have different hexadecimal forms.
pub finish_distinct :
    (s t : ℕ)
    → s < 2 ^ 64
    → t < 2 ^ 64
    → s ≢ t
    → finish (record { state = s }) ≢ finish (record { state = t })
finish_distinct s t hs ht n e = n (
    ap (λ (h : HashBuilder). h.state)
      (finish-injective (record { state = s }) (record { state = t }) hs ht e))
