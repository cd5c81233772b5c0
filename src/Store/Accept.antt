-- ===== src/Store/Accept.antt =====
-- MysqlDao::acceptDirectText and acceptGroupText (server/public/include/Mysql.h): a text is stored once, under
-- the next sequence number of its conversation.
pub mod Whole
pub mod Stores
use wim.Prelude.{
  Bool, List, Option, String, [], eqb, false, if◌then◌else◌, int_eq, nat_eq, none, not, pos, some,
  string_eq, true, ℕ, ℤ, ◌&&◌, ◌++◌, ◌+◌, ◌==◌, ◌||◌, ◌∷◌,
}
use wim.Prelude.Map.{insert, lookup}
use wim.Protocol.{
  ErrorCodes, error_value, group_notify_failed, idempotency_conflict, message_ownership_invalid,
  mysql_failed, success, user_not_friend,
}
use wim.Store.{
  Conversation, Ending, GroupMember, Member, MessageRow, Tables, committed, direct_conversation,
  group_conversation, lost_reply, no_session, status_wait, text_message, undone,
}

-- What the caller hands over; `receiver` is a user or a group.
pub record TextCommand : Type 0 where
  pub sender : ℤ
  pub receiver : ℤ
  pub client_message_id : String
  pub content : String
  pub send_date_time : String

-- MessageAcceptResult and GroupMessageAcceptResult; without `diagnostic`, and with the ids at 0 where
-- a failure leaves them unread.
pub record AcceptResult : Type 0 where
  pub error : ℕ
  pub duplicate : Bool
  pub message_id : ℕ
  pub conversation_id : ℤ
  pub conversation_seq : ℕ
  pub recipients : List ℤ

abbrev pub rejected : ErrorCodes → AcceptResult
rejected code = record {
  error = error_value code;
  duplicate = false;
  message_id = 0;
  conversation_id = pos 0;
  conversation_seq = 0;
  recipients = [];
}

-- INSERT INTO conversations … ON DUPLICATE KEY UPDATE conversationId = VALUES(conversationId)
abbrev pub open_missing : Option Conversation → ℤ → ℕ → ℤ → String → Tables → Tables
open_missing (some c) conversation kind business now t = t
open_missing none conversation kind business now t = record t {
  conversations =
      insert conversation
        record { kind = kind; business_id = business; latest_seq = 0; create_time = now }
        t.conversations;
}

unfoldable pub open_conversation : ℤ → ℕ → ℤ → String → Tables → Tables
open_conversation conversation kind business now t =
    open_missing (lookup conversation t.conversations) conversation kind business now t

unfoldable pub is_member : ℤ → ℤ → List Member → Bool
is_member conversation uid [] = false
is_member conversation uid (m ∷ ms) =
    (m.conversation_id == conversation && m.uid == uid) || is_member conversation uid ms

-- INSERT IGNORE INTO conversationMembers
unfoldable pub join_member : ℤ → ℕ → ℤ → Tables → Tables
join_member conversation joined uid t =
    if is_member conversation uid t.members then t else record t {
      members =
          t.members
          ++ (record {
            conversation_id = conversation;
            uid = uid;
            joined_seq = joined;
            left_seq = none;
            delivered_seq = 0;
            read_seq = 0;
          }
              ∷ []);
    }

-- INSERT IGNORE INTO conversationMembers … SELECT … FROM groupMembers
unfoldable pub join_group : ℤ → ℕ → ℤ → List GroupMember → Tables → Tables
join_group conversation joined gid [] t = t
join_group conversation joined gid (g ∷ gs) t =
    join_group conversation joined gid gs
      (if g.gid == gid then join_member conversation joined g.uid t else t)

-- SELECT … FROM messages WHERE senderId = ? AND clientMessageId = ?
-- Texts are compared as they stand; the column's collation would also find an id in another case.
unfoldable pub find_message : ℤ → String → List MessageRow → Option MessageRow
find_message sender client [] = none
find_message sender client (m ∷ ms) =
    if m.sender_id == sender && m.client_message_id == client
    then some m
    else find_message sender client ms

unfoldable pub same_command : ℤ → TextCommand → MessageRow → Bool
same_command conversation text row =
    row.conversation_id == conversation
    && row.receiver_id == text.receiver
    && eqb row.kind text_message
    && row.content == text.content

abbrev pub new_row : ℤ → ℕ → ℕ → TextCommand → MessageRow
new_row conversation seq id text = record {
  message_id = id;
  sender_id = text.sender;
  receiver_id = text.receiver;
  conversation_id = conversation;
  conversation_seq = seq;
  client_message_id = text.client_message_id;
  kind = text_message;
  content = text.content;
  status = status_wait;
  send_date_time = text.send_date_time;
  read_date_time = "";
}

-- UPDATE conversations SET latestSeq, and INSERT INTO messages
unfoldable pub append_text : ℤ → Conversation → TextCommand → Tables → Tables
append_text conversation c text t = record t {
  conversations = insert conversation (record c { latest_seq = c.latest_seq + 1 }) t.conversations;
  messages = t.messages ++ (new_row conversation (c.latest_seq + 1) t.next_message_id text ∷ []);
  next_message_id = t.next_message_id + 1;
}

abbrev pub accepted_as : Bool → ℕ → ℤ → ℕ → List ℤ → AcceptResult
accepted_as again id conversation seq recipients = record {
  error = error_value success;
  duplicate = again;
  message_id = id;
  conversation_id = conversation;
  conversation_seq = seq;
  recipients = recipients;
}

-- The duplicate check and what follows it. `before` is what a rollback restores.
abbrev pub store_checked :
    ℤ
    → Conversation
    → TextCommand
    → List ℤ
    → Option MessageRow
    → Tables
    → Tables
    → Tables × AcceptResult
store_checked conversation c text recipients none before t = (
  append_text conversation c text t,
  accepted_as false t.next_message_id conversation (c.latest_seq + 1) recipients,
)
store_checked conversation c text recipients (some row) before t =
    if same_command conversation text row
    then (t, accepted_as true row.message_id conversation row.conversation_seq recipients)
    else (before, rejected idempotency_conflict)

-- SELECT latestSeq FROM conversations … FOR UPDATE
abbrev pub store_locked :
    ℤ → TextCommand → List ℤ → Option Conversation → Tables → Tables → Tables × AcceptResult
store_locked conversation text recipients none before t = (before, rejected mysql_failed)
store_locked conversation text recipients (some c) before t =
    store_checked conversation c text recipients
      (find_message text.sender text.client_message_id t.messages) before t

unfoldable pub store_text : ℤ → TextCommand → List ℤ → Tables → Tables → Tables × AcceptResult
store_text conversation text recipients before t =
    store_locked conversation text recipients (lookup conversation t.conversations) before t

abbrev pub direct_tables : ℤ → TextCommand → Tables → Tables
direct_tables conversation text t = join_member conversation 1 text.receiver (
    join_member conversation 1 text.sender
      (open_conversation conversation direct_conversation conversation text.send_date_time t))

abbrev pub direct_between : Option ℤ → TextCommand → Tables → Tables × AcceptResult
direct_between none text t = (t, rejected user_not_friend)
direct_between (some conversation) text t =
    store_text conversation text [] t (direct_tables conversation text t)

-- The transaction of acceptDirectText.
unfoldable pub direct_body : TextCommand → Tables → Tables × AcceptResult
direct_body text t = direct_between (t.friends text.sender text.receiver) text t

-- SELECT gm.speech FROM … groupMembers gm … WHERE gi.gid = ? AND gm.uid = ?
unfoldable pub find_speech : ℤ → ℤ → List GroupMember → Option ℕ
find_speech gid uid [] = none
find_speech gid uid (g ∷ gs) =
    if g.gid == gid && g.uid == uid then some g.speech else find_speech gid uid gs

-- SELECT uid FROM groupMembers WHERE gid = ? AND uid <> ?
unfoldable pub other_members : ℤ → ℤ → List GroupMember → List ℤ
other_members gid uid [] = []
other_members gid uid (g ∷ gs) =
    let rest = other_members gid uid gs in
    if g.gid == gid && not (g.uid == uid) then g.uid ∷ rest else rest

abbrev pub latest_of : Option Conversation → ℕ
latest_of none = 0
latest_of (some c) = c.latest_seq

abbrev pub group_tables : ℤ → TextCommand → Tables → Tables
group_tables conversation text t =
    let opened' =
      open_conversation conversation group_conversation text.receiver text.send_date_time t in
    join_group conversation (latest_of (lookup conversation opened'.conversations) + 1)
      text.receiver opened'.group_members opened'

abbrev pub group_among : Option ℤ → Option ℕ → TextCommand → Tables → Tables × AcceptResult
group_among none speech text t = (t, rejected message_ownership_invalid)
group_among (some conversation) none text t = (t, rejected message_ownership_invalid)
group_among (some conversation) (some speech) text t =
    if eqb speech 0
    then store_text conversation text (other_members text.receiver text.sender t.group_members) t
        (group_tables conversation text t)
    else (t, rejected group_notify_failed)

-- The transaction of acceptGroupText.
unfoldable pub group_body : TextCommand → Tables → Tables × AcceptResult
group_body text t =
    group_among (t.group_info text.receiver) (find_speech text.receiver text.sender t.group_members)
      text t

-- executeTemplate and the handlers of exceptions around a transaction.
unfoldable pub finish_accept : Ending → Tables × AcceptResult → Tables → Tables × AcceptResult
finish_accept committed result t = result
finish_accept lost_reply result t = (result.0, rejected mysql_failed)
finish_accept no_session result t = (t, rejected mysql_failed)
finish_accept (undone ids) result t =
    (record t { next_message_id = t.next_message_id + ids }, rejected mysql_failed)

unfoldable pub accept_direct_text : Ending → TextCommand → Tables → Tables × AcceptResult
accept_direct_text ending text t = finish_accept ending (direct_body text t) t

unfoldable pub accept_group_text : Ending → TextCommand → Tables → Tables × AcceptResult
accept_group_text ending text t = finish_accept ending (group_body text t) t
