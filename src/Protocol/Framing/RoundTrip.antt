-- ===== src/Protocol/Framing/RoundTrip.antt =====
-- What is written by proto/src/framing.cpp is read back, frame by frame.
use mathlib.Core.List.{append_assoc, append-nil}
use sentinel_public.Prelude.{
  ◌==◌, ◌+◌, ℕ, suc, ◌^◌, ◌≤◌, ◌<◌, ◌≡◌, take, throw, runtime_error, zero, refl, ap, sym, subst,
  true, false, List, [], ◌∷◌, ◌++◌, length, take-append, drop-append, some, ltb, ◌==◌, ok, arith,
  All,
}
use sentinel_public.Protocol.Framing.{
  Codec, max_payload, or_throw, header_size, size_header, deterministic_bytes, read_payload,
  read_frame, write_frame, write_frames, read_frames,
}

header_size_lem : (n : ℕ) → n < 2 ^ 32 → header_size (size_header n) ≡ n
unfolding header_size size_header
header_size_lem n h = omega arith

cut_header :
    (n k : ℕ) (payload : List ℕ) → k < 4 → length (take 4 (take k (size_header n ++ payload))) ≡ k
unfolding size_header
cut_header n zero payload h = refl
cut_header n (suc zero) payload h = refl
cut_header n (suc (suc zero)) payload h = refl
cut_header n (suc (suc (suc zero))) payload h = refl
cut_header n (suc (suc (suc (suc k)))) payload h = absurd (omega arith)

length-take-lt :
    (k : ℕ) (xs : List ℕ)
    → k < length xs
    → (length (take k xs) ≡ k) × (length (take (length xs) (take k xs)) ≡ k)
length-take-lt zero [] h = absurd (omega arith)
length-take-lt zero (x ∷ xs) h = (refl, refl)
length-take-lt (suc k) [] h = absurd (omega arith)
length-take-lt (suc k) (x ∷ xs) h =
    let (a, b) = length-take-lt k xs (omega arith) in (ap suc a, ap suc b)

module _ {M : Type 0} (codec : Codec M) (payload : List ℕ) where
  cut_in_header :
      (k : ℕ)
      → 0 < k
      → k < 4
      → read_frame codec (take k (size_header (length payload) ++ payload)) ≡ throw runtime_error
  unfolding read_frame
  cut_in_header k p h = rw (cut_header (length payload) k payload h) (ground arith)

  read_cut :
      (k : ℕ)
      → length payload ≤ max_payload
      → k < length payload
      → read_payload codec (length payload) (take k payload) ≡ throw runtime_error
  unfolding read_payload
  read_cut k b h = rw (bound, (length-take-lt k payload h).1, short)
    where
      bound : ltb max_payload (length payload) ≡ false
      bound = ground arith

      short : (k == length payload) ≡ false
      short = ground arith

  cut_in_payload :
      (k : ℕ)
      → length payload ≤ max_payload
      → k < length payload
      → read_frame codec (take (suc (suc (suc (suc k)))) (size_header (length payload) ++ payload))
        ≡ throw runtime_error
  unfolding read_frame size_header header_size
  cut_in_payload k b h =
      subst (λ n. read_payload codec n (take k payload) ≡ throw runtime_error)
        (sym (header_size_lem (length payload) (omega arith))) (read_cut k b h)

  -- A stream that ends within a frame, after its first byte, is refused, for every payload that fits
  -- a frame and whatever the parser.
  pub read_frame_truncated :
      (k : ℕ)
      → length payload ≤ max_payload
      → 0 < k
      → k < 4 + length payload
      → read_frame codec (take k (size_header (length payload) ++ payload)) ≡ throw runtime_error
  read_frame_truncated zero b p h = absurd (omega arith)
  read_frame_truncated (suc zero) b p h = cut_in_header 1 (omega arith) (omega arith)
  read_frame_truncated (suc (suc zero)) b p h = cut_in_header 2 (omega arith) (omega arith)
  read_frame_truncated (suc (suc (suc zero))) b p h = cut_in_header 3 (omega arith) (omega arith)
  read_frame_truncated (suc (suc (suc (suc k)))) b p h = cut_in_payload k b (omega arith)

module _ {M : Type 0} (codec : Codec M)
    (parse-serialize : (m : M) (payload : List ℕ)
      → codec.serialize m ≡ some payload
      → codec.parse payload ≡ some m) where
  read_payload_lem :
      (m : M) (payload rest : List ℕ)
      → codec.serialize m ≡ some payload
      → length payload ≤ max_payload
      → read_payload codec (length payload) (payload ++ rest) ≡ ok (some (m, rest))
  unfolding read_payload or_throw
  read_payload_lem m payload rest s h =
      rw (
        bound,
        take-append payload rest,
        same,
        parse-serialize m payload s,
        drop-append payload rest,
      )
    where
      bound : ltb max_payload (length payload) ≡ false
      bound = ground arith

      same : (length payload == length payload) ≡ true
      same = ground arith

  -- A frame: the header of a payload that is not too large, and the payload.
  read_written :
      (m : M) (payload rest : List ℕ)
      → codec.serialize m ≡ some payload
      → length payload ≤ max_payload
      → read_frame codec (size_header (length payload) ++ (payload ++ rest)) ≡ ok (some (m, rest))
  unfolding read_frame header_size size_header
  read_written m payload rest s h =
      subst (λ n. read_payload codec n (payload ++ rest) ≡ ok (some (m, rest)))
        (sym (header_size_lem (length payload) small)) (read_payload_lem m payload rest s h)
    where
      small : length payload < 2 ^ 32
      small = omega arith

  -- Every message of the list has a serialized form that fits a frame.
  abbrev pub Fits : M → Type 0
  Fits m = (payload : List ℕ) × (codec.serialize m ≡ some payload) × (length payload ≤ max_payload)

  write_frame_lem :
      (m : M) (written payload : List ℕ)
      → codec.serialize m ≡ some payload
      → length payload ≤ max_payload
      → write_frame codec true written m ≡ ok (written ++ (size_header (length payload) ++ payload))
  unfolding write_frame deterministic_bytes or_throw
  write_frame_lem m written payload s h = rw (s, bound)
    where
      bound : ltb max_payload (length payload) ≡ false
      bound = ground arith

  -- A message that the writer accepts, on any stream, is the next message that a reader takes
  -- off what was appended, and the reader stops at its last byte.
  pub write_frame-read_frame :
      (m : M) (written : List ℕ)
      → Fits m
      → (frame : List ℕ) × (write_frame codec true written m ≡ ok (written ++ frame))
        × ((rest : List ℕ) → read_frame codec (frame ++ rest) ≡ ok (some (m, rest)))
  write_frame-read_frame m written (payload, s, h) = (
    size_header (length payload) ++ payload,
    write_frame_lem m written payload s h,
    λ rest.
        subst (λ xs. read_frame codec xs ≡ ok (some (m, rest)))
          (sym (append_assoc (size_header (length payload)) payload rest))
          (read_written m payload rest s h),
  )

  read_end : (fuel : ℕ) → read_frames codec (suc fuel) [] ≡ ok []
  unfolding read_frames read_frame
  read_end fuel = refl

  read_next :
      (m : M) (ms : List M) (fuel : ℕ) (frame rest : List ℕ)
      → read_frame codec (frame ++ rest) ≡ ok (some (m, rest))
      → read_frames codec fuel rest ≡ ok ms
      → read_frames codec (suc fuel) (frame ++ rest) ≡ ok (m ∷ ms)
  unfolding read_frames
  read_next m ms fuel frame rest h k = rw (h, k)

  -- With a parser that undoes the serializer, and messages whose serialized forms fit a frame: a run
  -- of writes appends some bytes, and a reader that may take one frame more than were written takes
  -- exactly the messages of the run off those bytes.
  pub write_frames-read_frames :
      (ms : List M) (written : List ℕ)
      → All Fits ms
      → (bytes : List ℕ) × (write_frames codec written ms ≡ ok (written ++ bytes))
        × (read_frames codec (suc (length ms)) bytes ≡ ok ms)
  unfolding write_frames
  write_frames-read_frames [] written h = ([], ap ok (sym (append-nil written)), read_end 0)
  write_frames-read_frames (m ∷ ms) written (h, hs) =
      let (frame, w, r) = write_frame-read_frame m written h in
      let (bytes, ws, rs) = write_frames-read_frames ms (written ++ frame) hs in
      (
        frame ++ bytes,
        rw (w, ws) (ap ok (append_assoc written frame bytes)),
        read_next m ms (suc (length ms)) frame bytes (r bytes) rs,
      )
