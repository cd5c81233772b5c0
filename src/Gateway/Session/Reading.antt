-- ===== src/Gateway/Session/Reading.antt =====
-- GatewaySession::Run: the frames that the read loop takes off the socket.
use wim.Prelude.{
  All, List, Option, [], ap, append_assoc, arith, drop, drop-length-append, false, if_elim,
  if◌then◌else◌, length, length-append, ltb, none, refl, some, suc, take, take-length-append, zero,
  ℕ, ◌&&◌, ◌++◌, ◌<◌, ◌^◌, ◌∙◌, ◌∷◌, ◌≡◌, ◌≤◌,
}
use wim.Client.FrameCodec.{DataStream, encode}
use wim.Client.FrameCodec.RoundTrip.{IsFrame, encode-be32, encode_all}
use wim.Wire.{TcpFrame}
use wim.Wire.Word.{be32, length-be32, read_be32, read_be32-be32}

-- What async_read leaves of a header: the protocol id, the body size, and the bytes after them.
abbrev with_size : ℕ → Option (ℕ × List ℕ) → Option (ℕ × ℕ × List ℕ)
with_size protocol_id none = none
with_size protocol_id (some (body_size, body)) = some (protocol_id, body_size, body)

abbrev with_id : Option (ℕ × List ℕ) → Option (ℕ × ℕ × List ℕ)
with_id none = none
with_id (some (protocol_id, rest)) = with_size protocol_id (read_be32 rest)

abbrev header : List ℕ → Option (ℕ × ℕ × List ℕ)
header bytes = with_id (read_be32 bytes)

abbrev pub receive_limit : ℕ
receive_limit = 10485760

-- A frame with its payload, or the end of the loop; `later` reads on after it.
abbrev one_frame : Option (ℕ × ℕ × List ℕ) → (List ℕ → List TcpFrame) → List TcpFrame
one_frame none later = []
one_frame (some (protocol_id, body_size, body)) later =
    if ltb receive_limit body_size
    then []
    else if ltb (length body) body_size
    then []
    else record { service_id = protocol_id; payload = take body_size body }
      ∷ later (drop body_size body)

-- The packets that `Run` hands to HandlePacket from all the bytes that the client sends before it ends the
-- stream, in a session that no one closes in between. A round takes eight bytes at least, so fuel beyond the number of bytes is never used up.
unfoldable pub read_frames : ℕ → List ℕ → List TcpFrame
unfolding read_be32
read_frames zero bytes = []
read_frames (suc fuel) bytes = one_frame (header bytes) (read_frames fuel)

unfoldable pub run_reads : List ℕ → List TcpFrame
unfolding read_frames
run_reads bytes = read_frames (suc (length bytes)) bytes

header-frame :
    (id size : ℕ) (body : List ℕ)
    → id < 2 ^ 32
    → size < 2 ^ 32
    → header (be32 id ++ (be32 size ++ body)) ≡ some (id, size, body)
header-frame id size body h k =
    ap with_id (read_be32-be32 id (be32 size ++ body) h)
    ∙ ap (with_size id) (read_be32-be32 size body k)

-- One frame at the front, within the limit.
one_frame-whole :
    (id : ℕ) (payload rest : List ℕ) (later : List ℕ → List TcpFrame)
    → length payload ≤ receive_limit
    → one_frame (some (id, length payload, payload ++ rest)) later
      ≡ record { service_id = id; payload = payload } ∷ later rest
one_frame-whole id payload rest later h =
    rw (within, present, take-length-append payload rest, drop-length-append payload rest) refl
  where
    within : ltb receive_limit (length payload) ≡ false
    within = ground arith

    present : ltb (length (payload ++ rest)) (length payload) ≡ false
    present = ground (arith, length-append payload rest)

short_word : (n : ℕ) (r : List ℕ) → length r < 4 → with_size n (read_be32 r) ≡ none
unfolding read_be32
short_word n [] h = refl
short_word n (a ∷ []) h = refl
short_word n (a ∷ b ∷ []) h = refl
short_word n (a ∷ b ∷ c ∷ []) h = refl
short_word n (a ∷ b ∷ c ∷ d ∷ r) h = absurd (omega (arith, h))

no_header : (r : List ℕ) → length r < 8 → header r ≡ none
unfolding read_be32
no_header [] h = refl
no_header (a ∷ []) h = refl
no_header (a ∷ b ∷ []) h = refl
no_header (a ∷ b ∷ c ∷ []) h = refl
no_header (a ∷ b ∷ c ∷ d ∷ r) h =
    if_elim (λ o. with_id o ≡ none) (ltb a 256 && ltb b 256 && ltb c 256 && ltb d 256)
      (λ _. short_word _ r (omega (arith, h))) (λ _. refl)

module _ (qt : DataStream) where
  encoded :
      (f : TcpFrame) (rest : List ℕ)
      → IsFrame f
      → encode qt f.service_id f.payload ++ rest
        ≡ be32 f.service_id ++ (be32 (length f.payload) ++ (f.payload ++ rest))
  encoded f rest v = rw (encode-be32 qt f v, append_assoc, append_assoc) refl

  read_frames-encode_all :
      (fs : List TcpFrame) (fuel : ℕ) (rest : List ℕ)
      → All IsFrame fs
      → length fs ≤ fuel
      → header rest ≡ none
      → read_frames fuel (encode_all qt fs ++ rest) ≡ fs
  unfolding read_frames
  read_frames-encode_all [] zero rest v h e = refl
  read_frames-encode_all [] (suc fuel) rest v h e = rw e refl
  read_frames-encode_all (f ∷ fs) zero rest v h e = absurd (omega (arith, h))
  read_frames-encode_all (f ∷ fs) (suc fuel) rest v h e =
      ap (λ b. one_frame (header b) (read_frames fuel))
        (append_assoc (encode qt f.service_id f.payload) (encode_all qt fs) rest
          ∙ encoded f (encode_all qt fs ++ rest) v.0)
      ∙ ap (λ o. one_frame o (read_frames fuel))
          (header-frame f.service_id (length f.payload) (f.payload ++ (encode_all qt fs ++ rest))
            v.0.0 (omega (arith, v.0.1)))
      ∙ one_frame-whole f.service_id f.payload (encode_all qt fs ++ rest) (read_frames fuel) v.0.1
      ∙ ap (λ l. f ∷ l) (read_frames-encode_all fs fuel rest v.1 (omega (arith, h)) e)

  length-encode_all : (fs : List TcpFrame) → All IsFrame fs → length fs ≤ length (encode_all qt fs)
  length-encode_all [] v = omega arith
  length-encode_all (f ∷ fs) v = omega (
    arith,
    length-append (encode qt f.service_id f.payload) (encode_all qt fs),
    length-encode_all fs v.1,
    ap length (encode-be32 qt f v.0),
    length-append (be32 f.service_id ++ be32 (length f.payload)) f.payload,
    length-append (be32 f.service_id) (be32 (length f.payload)),
    length-be32 f.service_id,
  )

  -- While a session stays open, its read loop takes off exactly the frames that the client's codec has
  -- encoded, in order, also where up to seven bytes of a further header follow before the stream ends.
  -- The frames have ids of 32 bits and payloads of at most 10 MiB.
  pub run_reads-encode_all :
      (fs : List TcpFrame) (rest : List ℕ)
      → All IsFrame fs
      → length rest < 8
      → run_reads (encode_all qt fs ++ rest) ≡ fs
  unfolding run_reads
  run_reads-encode_all fs rest v short =
      read_frames-encode_all fs (suc (length (encode_all qt fs ++ rest))) rest v
        (omega (arith, length-append (encode_all qt fs) rest, length-encode_all fs v))
        (no_header rest short)
