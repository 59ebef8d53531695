-- ===== src/Core/Network/Digest/Feeds.antt =====
-- Feeds of a hash (core/src/hash.cpp) from which what was fed can be read off.
use mathlib.Core.List.{append_assoc}
use sentinel_public.Prelude.{
  ℕ, zero, suc, ◌+◌, ◌^◌, ◌<◌, ◌≡◌, refl, sym, ap, ◌∙◌, Bool, List, [], ◌∷◌, ◌++◌, All, length,
  if◌then◌else◌, arith,
}
use sentinel_public.Prelude.Int.{ℤ}
use sentinel_public.Prelude.Text.{Text}
use sentinel_public.Core.Hash.{
  HashBuilder, hash_data, bytes, integer_bytes, unsigned_integer, to_unsigned, signed_integer,
  boolean, text,
}
use sentinel_public.Core.Hash.Laws.{hash_data-append, from_bytes, from_bytes-integer_bytes}
use sentinel_public.Core.Rng.Uniform.{IsInt64}
use sentinel_public.Core.Network.Digest.{numbers}

abbrev pub IsWord64 : ℕ → Type 0
IsWord64 n = n < 2 ^ 64

-- Two strings of the same length that are followed by something are read off apart.
pub split_append :
    (us vs xs ys : List ℕ) → length us ≡ length vs → us ++ xs ≡ vs ++ ys → (us ≡ vs) × (xs ≡ ys)
split_append [] [] xs ys l e = (refl, e)
split_append [] (v ∷ vs) xs ys l e = absurd (omega (arith, l))
split_append (u ∷ us) [] xs ys l e = absurd (omega (arith, l))
split_append (u ∷ us) (v ∷ vs) xs ys l e =
    let r = split_append us vs xs ys (omega (arith, l)) (cc) in
    let first : u ≡ v = cc in (ap (λ x. x ∷ us) first ∙ ap (λ x. v ∷ x) r.0, r.1)

bytes-bytes : (h : HashBuilder) (xs ys : List ℕ) → bytes (bytes h xs) ys ≡ bytes h (xs ++ ys)
unfolding bytes
bytes-bytes h xs ys = ap (λ (s : ℕ). record { state = s }) (sym (hash_data-append h.state xs ys))

-- A way to feed values of `R` to a hash, as bytes from which what `get` reads of the value, and what
-- comes after them, can be read off.
pub record Feed {R A : Type 0} (IsFit : R → Type 0) (feed : HashBuilder → R → HashBuilder)
    (get : R → A) : Type 0 where
  pub input : R → List ℕ
  pub feeds : (hash : HashBuilder) (r : R) → feed hash r ≡ bytes hash (input r)
  pub reads :
      (r s : R) (xs ys : List ℕ)
      → IsFit r
      → IsFit s
      → input r ++ xs ≡ input s ++ ys
      → (get r ≡ get s) × (xs ≡ ys)

module _ {R A : Type 0} {IsFit : R → Type 0} {f : HashBuilder → R → HashBuilder} {get : R → A} where
  -- One feed after another.
  pub after :
      {B : Type 0} {g : HashBuilder → R → HashBuilder} {get' : R → B}
      → Feed IsFit f get
      → Feed IsFit g get'
      → Feed {A = A × B} IsFit (λ h r. g (f h r) r) (λ r. (get r, get' r))
  after {g = g} p q = record {
    input = λ r. p.input r ++ q.input r;
    feeds = λ h r.
        ap (λ (k : HashBuilder). g k r) (p.feeds h r)
        ∙ q.feeds (bytes h (p.input r)) r
        ∙ bytes-bytes h (p.input r) (q.input r);
    reads = λ r s xs ys hr hs e.
        let one = p.reads r s (q.input r ++ xs) (q.input s ++ ys) hr hs (
          sym (append_assoc (p.input r) (q.input r) xs)
          ∙ e
          ∙ append_assoc (p.input s) (q.input s) ys) in
        let two = q.reads r s xs ys hr hs one.1 in ((λ i. (one.0 i, two.0 i)), two.1);
  }

  -- A feed of a part of a larger value.
  pub part :
      {S : Type 0} {IsFit' : S → Type 0} (field : S → R)
      → ((s : S) → IsFit' s → IsFit (field s))
      → Feed IsFit f get
      → Feed IsFit' (λ h s. f h (field s)) (λ s. get (field s))
  part field fits p = record {
    input = λ s. p.input (field s);
    feeds = λ h s. p.feeds h (field s);
    reads = λ r s xs ys hr hs. p.reads (field r) (field s) xs ys (fits r hr) (fits s hs);
  }

  -- What is read determines more.
  pub reading :
      {B : Type 0} {get' : R → B}
      → ((r s : R) → IsFit r → IsFit s → get r ≡ get s → get' r ≡ get' s)
      → Feed IsFit f get
      → Feed IsFit f get'
  reading more p = record {
    input = p.input;
    feeds = p.feeds;
    reads =
        λ r s xs ys hr hs e. let one = p.reads r s xs ys hr hs e in (more r s hr hs one.0, one.1);
  }

length-integer_bytes : (v n byte : ℕ) → length (integer_bytes v byte n) ≡ n
unfolding integer_bytes
length-integer_bytes v zero byte = refl
length-integer_bytes v (suc n) byte = ap suc (length-integer_bytes v n (byte + 1))

pub number : Feed IsWord64 unsigned_integer (λ v. v)
unfolding unsigned_integer
number = record {
  input = λ v. integer_bytes v 0 8;
  feeds = λ h v. refl;
  reads = λ v w xs ys hv hw e.
      let r =
        split_append (integer_bytes v 0 8) (integer_bytes w 0 8) xs ys
          (length-integer_bytes v 8 0 ∙ sym (length-integer_bytes w 8 0)) e in
      (
        sym (from_bytes-integer_bytes v hv) ∙ ap from_bytes r.0 ∙ from_bytes-integer_bytes w hw,
        r.1,
      );
}

abbrev bit : Bool → ℕ
bit b = if b then 1 else 0

bit_same : (b c : Bool) → bit b ≡ bit c → b ≡ c
bit_same b c e = ground arith

pub flag : Feed (λ b. Unit {0}) boolean (λ b. b)
unfolding boolean
flag = record {
  input = λ b. bit b ∷ [];
  feeds = λ h b. refl;
  reads = λ b c xs ys hb hc e.
      let r = split_append (bit b ∷ []) (bit c ∷ []) xs ys refl e in (bit_same b c (cc (r.0)), r.1);
}

to_unsigned_same : (a b : ℤ) → IsInt64 a → IsInt64 b → to_unsigned a ≡ to_unsigned b → a ≡ b
unfolding to_unsigned
to_unsigned_same a b ha hb e = ground arith

to_unsigned-IsWord64 : (a : ℤ) → IsInt64 a → IsWord64 (to_unsigned a)
unfolding to_unsigned
to_unsigned-IsWord64 a h = ground arith

pub signed : Feed IsInt64 signed_integer (λ a. a)
unfolding signed_integer
signed = reading {get = to_unsigned} to_unsigned_same (part to_unsigned to_unsigned-IsWord64 number)

abbrev pub IsText64 : Text → Type 0
IsText64 t = IsWord64 (length t)

pub string : Feed IsText64 text (λ t. t)
unfolding text
string = record {
  input = λ t. number.input (length t) ++ t;
  feeds = λ h t.
      ap (λ (k : HashBuilder). bytes k t) (number.feeds h (length t))
      ∙ bytes-bytes h (number.input (length t)) t;
  reads = λ t u xs ys ht hu e.
      let one = number.reads (length t) (length u) (t ++ xs) (u ++ ys) ht hu (
        sym (append_assoc (number.input (length t)) t xs)
        ∙ e
        ∙ append_assoc (number.input (length u)) u ys) in
      split_append t u xs ys one.0 one.1;
}

-- The elements of a list, one after another.
module _ {R : Type 0} {IsFit : R → Type 0} {f : HashBuilder → R → HashBuilder}
    (each : Feed IsFit f (λ r. r)) (all_of : HashBuilder → List R → HashBuilder)
    (none_left : (h : HashBuilder) → all_of h [] ≡ h)
    (one_more : (h : HashBuilder) (r : R) (rs : List R)
      → all_of h (r ∷ rs) ≡ all_of (f h r) rs) where
  joined : List R → List ℕ
  joined [] = []
  joined (r ∷ rs) = each.input r ++ joined rs

  joined-feeds : (h : HashBuilder) (rs : List R) → all_of h rs ≡ bytes h (joined rs)
  unfolding joined
  joined-feeds h [] = none_left h ∙ (unfold bytes hash_data in refl)
  joined-feeds h (r ∷ rs) =
      one_more h r rs
      ∙ ap (λ (k : HashBuilder). all_of k rs) (each.feeds h r)
      ∙ joined-feeds (bytes h (each.input r)) rs
      ∙ bytes-bytes h (each.input r) (joined rs)

  joined-reads :
      (rs ss : List R) (xs ys : List ℕ)
      → All IsFit rs
      → All IsFit ss
      → length rs ≡ length ss
      → joined rs ++ xs ≡ joined ss ++ ys
      → (rs ≡ ss) × (xs ≡ ys)
  unfolding joined
  joined-reads [] [] xs ys hr hs l e = (refl, e)
  joined-reads [] (s ∷ ss) xs ys hr hs l e = absurd (omega (arith, l))
  joined-reads (r ∷ rs) [] xs ys hr hs l e = absurd (omega (arith, l))
  joined-reads (r ∷ rs) (s ∷ ss) xs ys hr hs l e =
      let one = each.reads r s (joined rs ++ xs) (joined ss ++ ys) hr.0 hs.0 (
        sym (append_assoc (each.input r) (joined rs) xs)
        ∙ e
        ∙ append_assoc (each.input s) (joined ss) ys) in
      let two = joined-reads rs ss xs ys hr.1 hs.1 (omega (arith, l)) one.1 in
      (ap (λ x. x ∷ rs) one.0 ∙ ap (λ x. s ∷ x) two.0, two.1)

  -- The elements after their number.
  pub counted :
      Feed
        (λ rs. IsWord64 (length rs) × All IsFit rs)
        (λ h rs. all_of (unsigned_integer h (length rs)) rs)
        (λ rs. rs)
  counted = record {
    input = λ rs. number.input (length rs) ++ joined rs;
    feeds = λ h rs.
        joined-feeds (unsigned_integer h (length rs)) rs
        ∙ ap (λ (k : HashBuilder). bytes k (joined rs)) (number.feeds h (length rs))
        ∙ bytes-bytes h (number.input (length rs)) (joined rs);
    reads = λ rs ss xs ys hr hs e.
        let one =
          number.reads (length rs) (length ss) (joined rs ++ xs) (joined ss ++ ys) hr.0 hs.0 (
            sym (append_assoc (number.input (length rs)) (joined rs) xs)
            ∙ e
            ∙ append_assoc (number.input (length ss)) (joined ss) ys) in
        joined-reads rs ss xs ys hr.1 hs.1 one.0 one.1;
  }

  -- As many elements as every value of another type has.
  fixed :
      {S : Type 0} {IsFit' : S → Type 0} (list_of : S → List R)
      → ((r s : S) → length (list_of r) ≡ length (list_of s))
      → ((s : S) → IsFit' s → All IsFit (list_of s))
      → Feed IsFit' (λ h s. all_of h (list_of s)) list_of
  fixed list_of same fits = record {
    input = λ s. joined (list_of s);
    feeds = λ h s. joined-feeds h (list_of s);
    reads = λ r s xs ys hr hs.
        joined-reads (list_of r) (list_of s) xs ys (fits r hr) (fits s hs) (same r s);
  }

-- A fixed number of numbers.
pub several :
    {S : Type 0} {IsFit : S → Type 0} (list_of : S → List ℕ)
    → ((r s : S) → length (list_of r) ≡ length (list_of s))
    → ((s : S) → IsFit s → All IsWord64 (list_of s))
    → Feed IsFit (λ h s. numbers h (list_of s)) list_of
unfolding numbers
several = fixed number numbers (λ h. refl) (λ h r rs. refl)
