-- ===== src/Examples/Frames.antt =====
-- A run of proto/src/framing.cpp, with messages that are their own bytes.
use sentinel_public.Prelude.{take, throw, runtime_error}
use sentinel_public.Prelude.{ℕ, suc, ◌≡◌, refl, sym, List, [], ◌∷◌, ◌++◌, length, some, ok, arith}
use sentinel_public.Protocol.Framing.{Codec, write_frames, read_frames, read_frame, size_header}
use sentinel_public.Protocol.Framing.RoundTrip.{write_frames-read_frames, read_frame_truncated}

abbrev plain : Codec (List ℕ)
plain = record { serialize = λ m. some m; parse = λ m. some m }

abbrev frame : List ℕ
frame = 7 ∷ 8 ∷ []

abbrev messages : List (List ℕ)
messages = (7 ∷ 8 ∷ []) ∷ [] ∷ []

write_frames-read_frames_example :
    (bytes : List ℕ) × (write_frames plain (1 ∷ []) messages ≡ ok ((1 ∷ []) ++ bytes))
    × (read_frames plain (suc (length messages)) bytes ≡ ok messages)
write_frames-read_frames_example =
    write_frames-read_frames plain (λ m payload e. sym e) messages (1 ∷ [])
      ((7 ∷ 8 ∷ [], refl, omega arith), (([], refl, omega arith), tt))

read_frame_truncated_example :
    read_frame plain (take 5 (size_header (length frame) ++ frame)) ≡ throw runtime_error
read_frame_truncated_example =
    read_frame_truncated plain frame 5 (omega arith) (omega arith) (omega arith)
