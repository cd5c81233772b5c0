-- ===== src/Message/Packet.antt =====
-- The packet as the Message node reads and writes it: the fields of protocol.Packet
-- (server/public/proto/tcp_message.proto) that MessageService.cc uses.
use wim.Prelude.{Bool, List, Option, String, [], false, none, some, true, ℕ, ℤ}
use wim.Protocol.{ErrorCodes, error_value, is_retryable_error}
use wim.Wire.Packet.{ReceiptType, value_or}

pub data MessageState : Type 0 where
  state_accepted state_delivered state_read : MessageState

-- A row of `message_list`.
pub record ChatMessage : Type 0 where
  pub message_id : ℕ
  pub from : ℤ
  pub to : ℤ
  pub kind : ℕ
  pub content : String
  pub status : ℕ
  pub send_date_time : String
  pub read_date_time : String
  pub conversation_id : ℤ
  pub conversation_seq : ℕ
  pub client_message_id : String

-- Each field but the list is `optional`; `rest` stands for the fields that are passed on unread.
pub record MessagePacket : Type 0 where
  pub uid : Option ℤ
  pub seq : Option ℤ
  pub from : Option ℤ
  pub to : Option ℤ
  pub text : Option String
  pub session_key : Option ℤ
  pub error : Option ℕ
  pub message : Option String
  pub status : Option String
  pub last_msg_id : Option ℤ
  pub limit : Option ℤ
  pub gid : Option ℤ
  pub group_id : Option ℤ
  pub send_date_time : Option String
  pub message_id : Option ℤ
  pub message_state : Option MessageState
  pub receipt_type : Option ReceiptType
  pub retryable : Option Bool
  pub conversation_id : Option ℤ
  pub conversation_seq : Option ℤ
  pub client_message_id : Option String
  pub after_seq : Option ℤ
  pub message_list : List ChatMessage
  pub next_seq : Option ℕ
  pub has_more : Option Bool
  pub latest_seq : Option ℕ
  pub conversation_type : Option ℕ
  pub rest : List ℕ

abbrev pub no_fields : MessagePacket
no_fields = record {
  uid = none;
  seq = none;
  from = none;
  to = none;
  text = none;
  session_key = none;
  error = none;
  message = none;
  status = none;
  last_msg_id = none;
  limit = none;
  gid = none;
  group_id = none;
  send_date_time = none;
  message_id = none;
  message_state = none;
  receipt_type = none;
  retryable = none;
  conversation_id = none;
  conversation_seq = none;
  client_message_id = none;
  after_seq = none;
  message_list = [];
  next_seq = none;
  has_more = none;
  latest_seq = none;
  conversation_type = none;
  rest = [];
}

abbrev pub has {ℓ} : {A : Type ℓ} → Option A → Bool
has none = false
has (some a) = true

-- `MakeErrorPacket`, with the retry flag and the text of the error.
unfoldable pub error_packet : ErrorCodes → Option String → MessagePacket
error_packet code reason = record no_fields {
  error = some (error_value code);
  message = reason;
  retryable = some (is_retryable_error (error_value code));
}

-- `TcpPacketError`
unfoldable pub packet_error : MessagePacket → ℕ
packet_error p = value_or 0 p.error
