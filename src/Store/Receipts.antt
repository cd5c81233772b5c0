-- ===== src/Store/Receipts.antt =====
-- MysqlDao::updateMessageForReceiver and acknowledgeConversationMessage (server/public/include/Mysql.h): what a
-- receipt of a client does to the message and to the cursors of the member.
use wim.Prelude.{
  Bool, List, Option, String, [], eqb, false, if◌then◌else◌, int_eq, is_empty, is_positive, ltb,
  max, nat_eq, negsuc, none, not, pos, pos_part, some, string_eq, true, ℕ, ℤ, ◌&&◌, ◌==◌, ◌||◌, ◌∷◌,
}
use wim.Prelude.Map.{lookup}
use wim.Store.{
  Conversation, Ending, Member, MessageRow, Tables, committed, direct_conversation, lost_reply,
  no_session, status_delivered, status_read, undone,
}
use wim.Store.Accept.{is_member}

-- The status that a receipt asks for: READ or DELIVERED.
abbrev pub receipt_status : Bool → ℕ
receipt_status true = status_read
receipt_status false = status_delivered

-- UPDATE … WHERE, over the rows that the test selects.
unfoldable pub update_rows {ℓ} : {A : Type ℓ} → (A → Bool) → (A → A) → List A → List A
update_rows test change [] = []
update_rows test change (a ∷ rows) = (if test a then change a else a) ∷ update_rows test change rows

abbrev pub has_id : ℤ → MessageRow → Bool
has_id id m = pos m.message_id == id

unfoldable pub find_by_id : ℤ → List MessageRow → Option MessageRow
find_by_id id [] = none
find_by_id id (m ∷ ms) = if has_id id m then some m else find_by_id id ms

-- SET status = GREATEST(status, ?)
unfoldable pub advance_status : ℕ → MessageRow → MessageRow
advance_status status m = record m { status = max m.status status }

-- SET readDateTime = CASE WHEN status < ? OR readDateTime = '' THEN ? …, status = GREATEST(status, ?)
unfoldable pub stamp_read : ℕ → String → MessageRow → MessageRow
stamp_read status time m = record m {
  read_date_time =
      if ltb m.status status || is_empty m.read_date_time then time else m.read_date_time;
  status = max m.status status;
}

abbrev pub owned_by : ℤ → ℤ → MessageRow → Bool
owned_by id receiver m = has_id id m && m.receiver_id == receiver

abbrev pub receiver_update : Option MessageRow → ℤ → ℤ → ℕ → String → Tables → Tables × ℤ
receiver_update none id receiver status time t = (t, pos 0)
receiver_update (some m) id receiver status time t =
    if not (m.receiver_id == receiver)
    then (t, negsuc 1)
    else if is_empty time
    then (
      record t { messages = update_rows (owned_by id receiver) (advance_status status) t.messages },
      pos 1,
    )
    else (
      record t {
        messages = update_rows (owned_by id receiver) (stamp_read status time) t.messages;
      },
      pos 1,
    )

-- executeTemplate around a result of type int: the default is -1.
unfoldable pub finish_update : Ending → Tables × ℤ → Tables → Tables × ℤ
finish_update committed result t = result
finish_update lost_reply result t = (result.0, negsuc 0)
finish_update no_session result t = (t, negsuc 0)
finish_update (undone ids) result t = (t, negsuc 0)

unfoldable pub update_message_for_receiver : Ending → ℤ → ℤ → ℕ → String → Tables → Tables × ℤ
update_message_for_receiver ending id receiver status time t =
    finish_update ending (receiver_update (find_by_id id t.messages) id receiver status time t) t

-- The message that the join of `messages`, `conversations` and `conversationMembers` finds.
unfoldable pub find_owned : ℤ → ℤ → ℤ → List MessageRow → Option MessageRow
find_owned id conversation seq [] = none
find_owned id conversation seq (m ∷ ms) =
    if has_id id m && m.conversation_id == conversation && pos m.conversation_seq == seq
    then some m
    else find_owned id conversation seq ms

-- CASE WHEN ? = 3 AND (status < 3 OR readDateTime = '') THEN ? …
unfoldable pub stamp_conversation : ℕ → String → MessageRow → MessageRow
stamp_conversation status time m = record m {
  read_date_time =
      if eqb status status_read && (ltb m.status status_read || is_empty m.read_date_time)
      then time
      else m.read_date_time;
  status = max m.status status;
}

unfoldable pub advance_cursors : ℕ → ℕ → Member → Member
advance_cursors seq status m = record m {
  delivered_seq = max m.delivered_seq seq;
  read_seq = if eqb status status_read then max m.read_seq seq else m.read_seq;
}

abbrev pub cursor_of : ℤ → ℤ → Member → Bool
cursor_of conversation uid m = m.uid == uid && m.conversation_id == conversation

abbrev pub conversation_update :
    Option MessageRow
    → Option Conversation
    → Bool
    → ℤ
    → ℤ
    → ℤ
    → ℕ
    → ℕ
    → String
    → Tables
    → Tables × ℤ
conversation_update none c member id uid conversation seq status time t = (t, pos 0)
conversation_update (some m) none member id uid conversation seq status time t = (t, pos 0)
conversation_update (some m) (some c) member id uid conversation seq status time t =
    let advanced = record t {
      members = update_rows (cursor_of conversation uid) (advance_cursors seq status) t.members;
    } in
    if not member
    then (t, pos 0)
    else if eqb c.kind direct_conversation && not (m.receiver_id == uid)
    then (t, negsuc 1)
    else if eqb c.kind direct_conversation
    then (
      record advanced {
        messages = update_rows (has_id id) (stamp_conversation status time) t.messages;
      },
      pos 1,
    )
    else (advanced, pos 1)

abbrev pub bad_cursor : ℤ → ℤ → ℤ → ℤ → Bool
bad_cursor id uid conversation seq =
    not (is_positive id)
    || not (is_positive uid)
    || not (is_positive conversation)
    || not (is_positive seq)

unfoldable pub acknowledge_conversation_message :
    Ending → ℤ → ℤ → ℤ → ℤ → ℕ → String → Tables → Tables × ℤ
acknowledge_conversation_message ending id uid conversation seq status time t =
    if bad_cursor id uid conversation seq
    then (t, pos 0)
    else finish_update ending
        (conversation_update (find_owned id conversation seq t.messages)
          (lookup conversation t.conversations) (is_member conversation uid t.members) id uid
          conversation (pos_part seq) status time t)
        t
