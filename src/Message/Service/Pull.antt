-- ===== src/Message/Service/Pull.antt =====
-- PullSessionMessages and PullMessages of server/message/src/service/MessageService.cc, with the two queries of
-- server/public/include/Mysql.h that only they use.
use wim.Prelude.{
  Bool, List, Option, [], eqb, if◌then◌else◌, int_eq, is_negative, leb, map, nat_eq, none, not, pos,
  pos_part, some, string_eq, take, ℕ, ℤ, ◌&&◌, ◌==◌, ◌||◌, ◌∷◌,
}
use wim.Client.Connection.Reentry.{request}
use wim.Message.Packet.{ChatMessage, MessagePacket, has, no_fields}
use wim.Protocol.{error_value, success}
use wim.Store.{MessageRow, Tables}
use wim.Store.Sync.{SyncResult, sync_conversation}
use wim.Wire.Packet.{value_or}

-- `WHERE messageId >= ?` and the test on the sender and the receiver.
unfoldable pub rows_from : (MessageRow → Bool) → ℕ → List MessageRow → List MessageRow
rows_from test last [] = []
rows_from test last (m ∷ ms) =
    let rest = rows_from test last ms in if test m && leb last m.message_id then m ∷ rest else rest

unfoldable pub insert_by_id : MessageRow → List MessageRow → List MessageRow
insert_by_id m [] = m ∷ []
insert_by_id m (n ∷ ns) =
    let rest = insert_by_id m ns in if leb n.message_id m.message_id then m ∷ n ∷ ns else n ∷ rest

-- ORDER BY messageId DESC
unfoldable pub latest_first : List MessageRow → List MessageRow
latest_first [] = []
latest_first (m ∷ ms) = insert_by_id m (latest_first ms)

abbrev pub some_rows : List MessageRow → Option (List MessageRow)
some_rows [] = none
some_rows (m ∷ ms) = some (m ∷ ms)

-- Both queries answer nullptr for a negative id, for a failure (a negative LIMIT is one) and for no rows.
unfoldable pub query_rows :
    Bool → (MessageRow → Bool) → ℤ → ℤ → List MessageRow → Option (List MessageRow)
query_rows available test last limit rows =
    if is_negative last || not available || is_negative limit
    then none
    else some_rows (take (pos_part limit) (latest_first (rows_from test (pos_part last) rows)))

abbrev pub sent_between : ℤ → ℤ → MessageRow → Bool
sent_between from to m = m.sender_id == from && m.receiver_id == to

unfoldable pub get_session_message : Bool → ℤ → ℤ → ℤ → ℤ → Tables → Option (List MessageRow)
get_session_message available from to last limit t =
    query_rows available (sent_between from to) last limit t.messages

abbrev pub received_by : ℤ → MessageRow → Bool
received_by uid m = m.receiver_id == uid

unfoldable pub get_user_message : Bool → ℤ → ℤ → ℤ → Tables → Option (List MessageRow)
get_user_message available uid last limit t =
    query_rows available (received_by uid) last limit t.messages

unfoldable pub full_item : MessageRow → ChatMessage
full_item m = record {
  message_id = m.message_id;
  from = m.sender_id;
  to = m.receiver_id;
  kind = m.kind;
  content = m.content;
  status = m.status;
  send_date_time = m.send_date_time;
  read_date_time = m.read_date_time;
  conversation_id = m.conversation_id;
  conversation_seq = m.conversation_seq;
  client_message_id = m.client_message_id;
}

-- The older requests leave the sender, the receiver and the conversation out.
unfoldable pub short_item : MessageRow → ChatMessage
unfolding full_item
short_item m = record (full_item m) {
  from = pos 0;
  to = pos 0;
  conversation_id = pos 0;
  conversation_seq = 0;
  client_message_id = "";
}

unfoldable pub sync_answer : ℤ → SyncResult → MessagePacket
sync_answer conversation r =
    let answer = record no_fields {
      error = some r.error;
      conversation_id = some conversation;
      latest_seq = some r.latest_seq;
      next_seq = some r.next_seq;
      has_more = some r.has_more;
      conversation_type =
          if eqb r.conversation_type 1 || eqb r.conversation_type 2
          then some r.conversation_type
          else none;
    } in
    if eqb r.error (error_value success)
    then record answer { message_list = map full_item r.messages }
    else answer

abbrev pub list_answer : ℤ → Option (List MessageRow) → MessagePacket
list_answer owner none = record no_fields { error = some (error_value success) }
list_answer owner (some rows) = record no_fields {
  uid = some owner;
  message_list = map short_item rows;
  error = some (error_value success);
}

unfoldable pub pull_session_messages : Bool → MessagePacket → Tables → MessagePacket
pull_session_messages available request t =
    let conversation = value_or (pos 0) request.conversation_id in
    let to = value_or (pos 0) request.to in
    if has request.conversation_id
    then sync_answer conversation (
        sync_conversation available (value_or (pos 0) request.uid) conversation
          (value_or (pos 0) request.after_seq) (value_or (pos 50) request.limit) t)
    else list_answer to (
        get_session_message available (value_or (pos 0) request.from) to
          (value_or (pos 0) request.last_msg_id) (value_or (pos 0) request.limit) t)

unfoldable pub pull_messages : Bool → MessagePacket → Tables → MessagePacket
pull_messages available request t =
    let uid = value_or (pos 0) request.uid in
    record (list_answer uid (
      get_user_message available uid (value_or (pos 0) request.last_msg_id)
        (value_or (pos 0) request.limit) t)) { uid = some uid }
