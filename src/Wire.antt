-- ===== src/Wire.antt =====
-- The frame that client and Gateway exchange: a service id and a payload size, four bytes each in
-- network order, then the payload (EncodeFrame of server/gateway/src/GatewaySession.cc).
pub mod Word
pub mod Packet
use wim.Prelude.{ℕ, List, [], ◌++◌, length, ◌%◌, ◌^◌}
use Word.{be32}

pub record TcpFrame : Type 0 where
  pub service_id : ℕ
  pub payload : List ℕ

-- `htonl(protocolId)`, `htonl(static_cast<uint32_t>(payload.size()))`, then the payload.
unfoldable pub encode_frame : ℕ → List ℕ → List ℕ
encode_frame protocol_id payload = be32 protocol_id ++ be32 (length payload % 2 ^ 32) ++ payload
