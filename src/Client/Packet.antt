-- ===== src/Client/Packet.antt =====
-- The packet as the desktop client builds and reads it: the fields of protocol.Packet that
-- ConnectionGatewayClient.cc sets or reads (server/public/proto/tcp_message.proto), and the two functions of
-- ProtobufPacketCodec.cc. QProtobufSerializer is Qt's: the interface `Serializer`.
use wim.Prelude.{Bool, List, Option, String, [], none, ℕ, ℤ}
use wim.Wire.Packet.{ReceiptType}

-- Each field is `optional`; `rest` stands for the others, which the connection never touches.
pub record Packet : Type 0 where
  pub uid : Option ℤ
  pub auth_token : Option String
  pub init : Option Bool
  pub name : Option String
  pub age : Option ℤ
  pub sex : Option String
  pub head_image_url : Option String
  pub seq : Option ℤ
  pub to : Option ℤ
  pub data_bytes : Option (List ℕ)
  pub session_key : Option ℤ
  pub error : Option ℕ
  pub accept : Option Bool
  pub request_message : Option String
  pub reply_message : Option String
  pub file_name : Option String
  pub file_type : Option String
  pub last_msg_id : Option ℤ
  pub limit : Option ℤ
  pub gid : Option ℤ
  pub group_name : Option String
  pub requestor_uid : Option ℤ
  pub receipt_type : Option ReceiptType
  pub request_timeout_ms : Option ℕ
  pub request_id : Option String
  pub conversation_id : Option ℤ
  pub conversation_seq : Option ℤ
  pub client_message_id : Option String
  pub after_seq : Option ℤ
  pub rest : List ℕ

abbrev pub blank_packet : Packet
blank_packet = record {
  uid = none;
  auth_token = none;
  init = none;
  name = none;
  age = none;
  sex = none;
  head_image_url = none;
  seq = none;
  to = none;
  data_bytes = none;
  session_key = none;
  error = none;
  accept = none;
  request_message = none;
  reply_message = none;
  file_name = none;
  file_type = none;
  last_msg_id = none;
  limit = none;
  gid = none;
  group_name = none;
  requestor_uid = none;
  receipt_type = none;
  request_timeout_ms = none;
  request_id = none;
  conversation_id = none;
  conversation_seq = none;
  client_message_id = none;
  after_seq = none;
  rest = [];
}

-- `none` is a serializer that reports an error, or bytes that do not parse.
pub record Serializer : Type 0 where
  pub serialize : Packet → Option (List ℕ)
  pub deserialize : List ℕ → Option Packet
