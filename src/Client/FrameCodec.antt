-- ===== src/Client/FrameCodec.antt =====
-- client/src/adapters/connection_gateway/TcpFrameCodec.{h,cc}: frames out of a stream of chunks.
-- QDataStream is Qt's: the section's parameter `qt`, with what its documentation says of `<<` and
-- `>>` at a quint32 in big-endian order.
pub mod Rounds
pub mod RoundTrip
pub mod Bounds
use wim.Prelude.{
  Bool, List, Option, String, [], drop, if◌then◌else◌, length, ltb, none, not, refl, some,
  string_eq, suc, take, zero, ℕ, ◌%◌, ◌++◌, ◌+◌, ◌<◌, ◌==◌, ◌^◌, ◌∷◌, ◌≡◌,
}
use wim.Wire.{TcpFrame}
use wim.Wire.Word.{be32, be32-read_be32, read_be32, read_be32-be32}

pub record DataStream : Type 0 where
  pub write_u32 : ℕ → List ℕ
  -- The word at the front and the rest; `none` is a status other than Ok.
  pub read_u32 : List ℕ → Option (ℕ × List ℕ)
  pub writes_network_order : (n : ℕ) → n < 2 ^ 32 → write_u32 n ≡ be32 n
  pub reads_back : (n : ℕ) (rest : List ℕ) → n < 2 ^ 32 → read_u32 (be32 n ++ rest) ≡ some (n, rest)
  pub reads_network_order :
      (bytes : List ℕ) (n : ℕ) (rest : List ℕ)
      → read_u32 bytes ≡ some (n, rest)
      → (bytes ≡ be32 n ++ rest) × (n < 2 ^ 32)

abbrev pub network_stream : DataStream
network_stream = record {
  write_u32 = be32;
  read_u32 = read_be32;
  writes_network_order = λ n h. refl;
  reads_back = read_be32-be32;
  reads_network_order = be32-read_be32;
}

abbrev pub header_size : ℕ
header_size = 8

abbrev pub maximum_payload_size : ℕ
maximum_payload_size = 10485760

pub record TcpFrameCodec : Type 0 where
  pub buffer : List ℕ
  pub error : String

-- `!error_.isEmpty()`
unfoldable pub has_error : TcpFrameCodec → Bool
has_error c = not (c.error == "")

abbrev pub reset : TcpFrameCodec → TcpFrameCodec
reset c = record { buffer = []; error = "" }

module _ (qt : DataStream) where
  unfoldable pub encode : ℕ → List ℕ → List ℕ
  encode service_id payload =
      qt.write_u32 service_id ++ qt.write_u32 (length payload % 2 ^ 32) ++ payload

  -- `header >> serviceId >> payloadSize`
  unfoldable pub read_header : List ℕ → Option (ℕ × ℕ)
  read_header bytes = elim (qt.read_u32 bytes) [
    | none ↦ none
    | some (service_id, rest) ↦ elim (qt.read_u32 rest) [
      | none ↦ none
      | some (payload_size, _) ↦ some (service_id, payload_size)
    ]
  ]

  -- The loop of `Feed`. A round takes eight bytes at least, so fuel beyond the length of the buffer,
  -- which `feed` gives, is never used up.
  unfoldable pub feed_loop : ℕ → List ℕ → List TcpFrame → TcpFrameCodec × List TcpFrame
  feed_loop zero buffer frames = (record { buffer = buffer; error = "" }, frames)
  feed_loop (suc fuel) buffer frames =
      if ltb (length buffer) header_size
      then (record { buffer = buffer; error = "" }, frames)
      else elim (read_header (take header_size buffer)) [
        | none ↦ (record { buffer = []; error = "invalid TCP frame header" }, [])
        | some (service_id, payload_size) ↦
            let total_size = (header_size + payload_size) % 2 ^ 32 in
            let frame : TcpFrame = record {
              service_id = service_id;
              payload = take payload_size (drop header_size buffer);
            } in
            let next = feed_loop fuel (drop total_size buffer) (frames ++ (frame ∷ [])) in
            if ltb maximum_payload_size payload_size
            then (record { buffer = []; error = "TCP frame payload exceeds 10 MiB" }, [])
            else if ltb (length buffer) total_size
            then (record { buffer = buffer; error = "" }, frames)
            else next
      ]

  unfoldable pub feed : TcpFrameCodec → List ℕ → TcpFrameCodec × List TcpFrame
  feed c bytes =
      if has_error c
      then (c, [])
      else feed_loop (suc (length (c.buffer ++ bytes))) (c.buffer ++ bytes) []

  -- The reads of a socket, one after the other, and the frames that `Feed` returns over them.
  unfoldable pub feed_all : TcpFrameCodec → List (List ℕ) → TcpFrameCodec × List TcpFrame
  feed_all c [] = (c, [])
  feed_all c (chunk ∷ chunks) =
      let (c', frames) = feed c chunk in
      let (c'', more) = feed_all c' chunks in (c'', frames ++ more)
