-- ===== src/Message/Service/Receipt.antt =====
-- MessageService::Ack (server/message/src/service/MessageService.cc).
use wim.Prelude.{
  Bool, Option, String, false, if◌then◌else◌, int_eq, is_positive, nat_eq, negsuc, none, not, pos,
  some, string_eq, true, ℤ, ◌&&◌, ◌==◌,
}
use wim.Client.Connection.Reentry.{request}
use wim.Message.Packet.{MessagePacket, has, no_fields, state_delivered, state_read}
use wim.Protocol.{
  ErrorCodes, error_value, json_parser, message_ownership_invalid, mysql_failed, success,
}
use wim.Store.{Ending, Tables}
use wim.Store.Receipts.{
  acknowledge_conversation_message, receipt_status, update_message_for_receiver,
}
use wim.Wire.Packet.{
  ReceiptType, delivered_receipt, read_receipt, transport_receipt, unspecified_receipt, value_or,
}

abbrev pub is_legacy : Option ReceiptType → Bool
is_legacy none = true
is_legacy (some unspecified_receipt) = true
is_legacy (some delivered_receipt) = false
is_legacy (some read_receipt) = false
is_legacy (some transport_receipt) = false

-- A receipt without a type counts as delivered.
abbrev pub effective : Option ReceiptType → ReceiptType
effective none = delivered_receipt
effective (some unspecified_receipt) = delivered_receipt
effective (some delivered_receipt) = delivered_receipt
effective (some read_receipt) = read_receipt
effective (some transport_receipt) = transport_receipt

abbrev only_error : ErrorCodes → MessagePacket
only_error code = record no_fields { error = some (error_value code) }

unfoldable pub is_done : Bool → ℤ → MessagePacket
is_done read seq = record no_fields {
  error = some (error_value success);
  message_id = some seq;
  message_state = some (if read then state_read else state_delivered);
}

-- The answer to what the database says: 1, 0 (no such message), -2 (another's) or -1 (failure).
unfoldable pub ack_answer : Bool → Bool → ℤ → ℤ → MessagePacket
ack_answer read legacy seq updated =
    if (updated == pos 0) && legacy
    then only_error success
    else if not (is_positive updated)
    then only_error (if updated == negsuc 0 then mysql_failed else message_ownership_invalid)
    else is_done read seq

-- The update, for a receipt with the cursor of a conversation or without one.
unfoldable pub ack_update : Ending → Bool → String → MessagePacket → Tables → Tables × ℤ
ack_update ending read now request t =
    let seq = value_or (pos 0) request.seq in
    let uid = value_or (pos 0) request.uid in
    let time = if read then now else "" in
    if has request.conversation_id && has request.conversation_seq
    then acknowledge_conversation_message ending seq uid (value_or (pos 0) request.conversation_id)
        (value_or (pos 0) request.conversation_seq) (receipt_status read) time t
    else update_message_for_receiver ending seq uid (receipt_status read) time t

abbrev pub ack_kind :
    ReceiptType → Ending → Bool → String → MessagePacket → Tables → Tables × MessagePacket
ack_kind transport_receipt ending legacy now request t = (t, only_error success)
ack_kind unspecified_receipt ending legacy now request t = (t, only_error json_parser)
ack_kind delivered_receipt ending legacy now request t =
    let (t', updated) = ack_update ending false now request t in
    (t', ack_answer false legacy (value_or (pos 0) request.seq) updated)
ack_kind read_receipt ending legacy now request t =
    let (t', updated) = ack_update ending true now request t in
    (t', ack_answer true legacy (value_or (pos 0) request.seq) updated)

unfoldable pub ack : Ending → String → MessagePacket → Tables → Tables × MessagePacket
ack ending now request t =
    if not (is_positive (value_or (pos 0) request.seq))
    then (t, only_error json_parser)
    else ack_kind (effective request.receipt_type) ending (is_legacy request.receipt_type) now
        request t
