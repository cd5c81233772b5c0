-- ===== src/Wire/Packet.antt =====
-- The client's packet (server/public/include/TcpMessageCodec.h): protocol.Packet with the fields that the
-- Gateway reads or writes. Protobuf is not in the repository: it is the interface `Protobuf`.
use wim.Prelude.{Bool, List, Option, String, [], if◌then◌else◌, is_empty, none, some, ℕ, ℤ}
use wim.Protocol.{ErrorCodes, error_value, is_retryable_error}

pub data ReceiptType : Type 0 where
  unspecified_receipt delivered_receipt read_receipt transport_receipt : ReceiptType

-- Each field is `optional`; `rest` stands for the fields that the Gateway passes on unread.
pub record TcpPacket : Type 0 where
  pub uid : Option ℤ
  pub seq : Option ℤ
  pub error : Option ℕ
  pub message : Option String
  pub name : Option String
  pub age : Option ℤ
  pub sex : Option String
  pub head_image_url : Option String
  pub init : Option Bool
  pub auth_token : Option String
  pub receipt_type : Option ReceiptType
  pub retryable : Option Bool
  pub request_timeout_ms : Option ℕ
  pub request_id : Option String
  pub conversation_id : Option ℤ
  pub rest : List ℕ

abbrev pub empty_packet : TcpPacket
empty_packet = record {
  uid = none;
  seq = none;
  error = none;
  message = none;
  name = none;
  age = none;
  sex = none;
  head_image_url = none;
  init = none;
  auth_token = none;
  receipt_type = none;
  retryable = none;
  request_timeout_ms = none;
  request_id = none;
  conversation_id = none;
  rest = [];
}

-- A getter returns the default value of a field that is not set.
abbrev pub value_or {ℓ} : {A : Type ℓ} → A → Option A → A
value_or d none = d
value_or d (some a) = a

pub record Protobuf : Type 0 where
  pub serialize : TcpPacket → List ℕ
  pub parse : List ℕ → Option TcpPacket

-- `MakeErrorPacket`
unfoldable pub make_error_packet : ℕ → String → TcpPacket
make_error_packet code text = record empty_packet {
  error = some code;
  retryable = some (is_retryable_error code);
  message = if is_empty text then none else some text;
}

-- `TcpPacketError`
unfoldable pub tcp_packet_error : TcpPacket → ℕ
tcp_packet_error p = value_or (error_value ErrorCodes.success) p.error
