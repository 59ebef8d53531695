-- ===== src/Protocol/Framing.antt =====
-- proto/src/framing.cpp: frames of a 32-bit big-endian size and a serialized message. Protobuf's
-- serializer and parser are parameters; a stream is the bytes that it still holds, or has taken.
pub mod RoundTrip
use sentinel_public.Prelude.{
  ℕ, zero, suc, ◌+◌, ◌*◌, ◌/◌, ◌%◌, ◌^◌, Bool, true, false, not, List, [], ◌∷◌, ◌++◌, length, take,
  drop, Option, none, some, ltb, ◌==◌, if◌then◌else◌, Except, ok, throw, ◌>>=◌, ◌>>◌, throw_if,
  runtime_error,
}

-- `SerializeToCodedStream` and `ParseFromArray` of the Protobuf library, for one type of message.
pub record Codec (M : Type 0) : Type 0 where
  pub serialize : M → Option (List ℕ)
  pub parse : List ℕ → Option M

abbrev pub max_payload : ℕ
max_payload = 16 * 1024 * 1024

unfoldable pub or_throw {ℓ} : {A : Type ℓ} → Option A → Except A
or_throw none = throw runtime_error
or_throw (some a) = ok a

-- The header's four bytes; their shifted values share no bits, so `|` is a sum.
unfoldable pub header_size : List ℕ → ℕ
header_size (a ∷ b ∷ c ∷ d ∷ _) = a * 2 ^ 24 + b * 2 ^ 16 + c * 2 ^ 8 + d
header_size _ = 0

unfoldable pub size_header : ℕ → List ℕ
size_header size =
    (size / 2 ^ 24 % 256) ∷ (size / 2 ^ 16 % 256) ∷ (size / 2 ^ 8 % 256) ∷ (size % 256) ∷ []

module _ {M : Type 0} (codec : Codec M) where
  unfoldable pub deterministic_bytes : M → Except (List ℕ)
  unfolding or_throw
  deterministic_bytes message = or_throw (codec.serialize message)

  -- The rest of `read_frame`, after the header.
  unfoldable pub read_payload : ℕ → List ℕ → Except (Option (M × List ℕ))
  unfolding or_throw
  read_payload size stream = do
    throw_if (ltb max_payload size) runtime_error
    let payload = take size stream
    throw_if (not (length payload == size)) runtime_error
    message ← or_throw (codec.parse payload)
    ok (some (message, drop size stream))

  -- `none` is the `false` of a stream that ends before a frame.
  unfoldable pub read_frame : List ℕ → Except (Option (M × List ℕ))
  unfolding header_size
  read_frame stream =
      let header = take 4 stream in
      let rest = read_payload (header_size header) (drop 4 stream) in
      if length header == 0
      then ok none
      else if not (length header == 4)
      then throw runtime_error
      else rest

  -- `good` says that the stream took the bytes.
  unfoldable pub write_frame : Bool → List ℕ → M → Except (List ℕ)
  unfolding deterministic_bytes size_header
  write_frame good written message = do
    payload ← deterministic_bytes message
    throw_if (ltb max_payload (length payload)) runtime_error
    throw_if (not good) runtime_error
    ok (written ++ (size_header (length payload) ++ payload))

  -- A run of `write_frame` calls on one stream, and a reader that takes `count` frames off it.
  unfoldable pub write_frames : List ℕ → List M → Except (List ℕ)
  write_frames written [] = ok written
  write_frames written (m ∷ ms) = do written' ← write_frame true written m; write_frames written' ms

  unfoldable pub read_frames : ℕ → List ℕ → Except (List M)
  read_frames zero stream = throw runtime_error
  read_frames (suc fuel) stream = do
    r ← read_frame stream
    elim r [ none ↦ ok [] | some (m, rest) ↦ do ms ← read_frames fuel rest; ok (m ∷ ms) ]
