-- ===== src/Examples/Store.antt =====
-- The message tables at concrete inputs: users 1 and 2 are friends, with the session 50.
use wim.Prelude.{
  List, [], arith, false, if◌then◌else◌, int_eq, max, nat_eq, none, pos, refl, some, string_eq,
  true, ℕ, ◌&&◌, ◌-◌, ◌==◌, ◌∷◌, ◌≡◌, ◌≤◌,
}
use wim.Prelude.Map.{erase, insert, lookup}
use wim.Protocol.{error_value}
use wim.Store.{Conversation, Member, MessageRow, Tables, committed, undone}
use wim.Store.Accept.{
  TextCommand, accept_direct_text, accept_group_text, accepted_as, direct_body, find_message,
  finish_accept, is_member, join_member, latest_of, new_row, open_conversation, store_text,
}
use wim.Store.Accept.Whole.{Whole, accept_all_or_nothing}
use wim.Store.History.{Run, acknowledges, directs, here, next}
use wim.Store.History.Again.{again_at, retry_recognised}
use wim.Store.History.Dense.{text_history}
use wim.Store.History.Lifecycle.{Extends, message_lifecycle}
use wim.Store.History.Sequence.{copies, seqs, upto}
use wim.Store.Receipts.{acknowledge_conversation_message, receipt_status}
use wim.Store.Sync.{find_member, left_or, rows_between}
use wim.Store.Sync.Pages.{pull_pages, pull_pages-visible}
use wim.Store.Sync.Rows.{Above}

abbrev pub no_messages : Tables
no_messages = record {
  friends = λ a b. if a == pos 1 && b == pos 2 then some (pos 50) else none;
  group_info = λ g. none;
  group_members = [];
  conversations = [];
  members = [];
  messages = [];
  next_message_id = 1;
}

abbrev hello : TextCommand
hello = record {
  sender = pos 1;
  receiver = pos 2;
  client_message_id = "1:1";
  content = "hello";
  send_date_time = "09:00";
}

abbrev greeted : Tables
greeted = (accept_direct_text committed hello no_messages).0

abbrev read_by : Tables
read_by =
    (acknowledge_conversation_message committed (pos 1) (pos 2) (pos 50) (pos 1)
      (receipt_status true) "09:05" greeted).0

abbrev read_run : Run greeted read_by
read_run = next here (acknowledges committed (pos 1) (pos 2) (pos 50) (pos 1) true "09:05")

text_history_example :
    (seqs (pos 50) read_by.messages ≡ upto (latest_of (lookup (pos 50) read_by.conversations)))
    × (copies (pos 1) "1:1" read_by.messages ≤ 1)
text_history_example = text_history (pos 50) (pos 1) "1:1" {t = no_messages} refl refl (
    next (next here (directs committed hello))
      (acknowledges committed (pos 1) (pos 2) (pos 50) (pos 1) true "09:05"))

message_lifecycle_example : Extends greeted.messages read_by.messages
message_lifecycle_example = message_lifecycle read_run

retry_recognised_example :
    ((accept_direct_text committed (again_at "09:10" hello) read_by).1
      ≡ accepted_as true
          (direct_body hello no_messages).1.message_id
          (direct_body hello no_messages).1.conversation_id
          (direct_body hello no_messages).1.conversation_seq
          [])
    × ((accept_direct_text committed (again_at "09:10" hello) read_by).0.messages
        ≡ read_by.messages)
unfolding direct_body store_text lookup error_value accept_direct_text finish_accept
    open_conversation join_member is_member insert erase find_message
retry_recognised_example = retry_recognised false "09:10" hello no_messages refl read_run

accept_all_or_nothing_example :
    Whole (undone 1) no_messages (accept_direct_text (undone 1) hello no_messages)
    × Whole (undone 1) no_messages (accept_group_text (undone 1) hello no_messages)
accept_all_or_nothing_example = accept_all_or_nothing (undone 1) hello no_messages

abbrev talk : Conversation
talk = record { kind = 1; business_id = pos 50; latest_seq = 3; create_time = "09:00" }

abbrev seat : Member
seat = record {
  conversation_id = pos 50;
  uid = pos 2;
  joined_seq = 1;
  left_seq = none;
  delivered_seq = 0;
  read_seq = 0;
}

abbrev three_texts : Tables
three_texts = record no_messages {
  conversations = (pos 50, talk) ∷ [];
  members = seat ∷ [];
  messages =
      new_row (pos 50) 1 1 hello
      ∷ new_row (pos 50) 2 2 (record hello { client_message_id = "1:2" })
      ∷ new_row (pos 50) 3 3 (record hello { client_message_id = "1:3" })
      ∷ [];
}

abbrev from_first : ℕ → List MessageRow
from_first after =
    rows_between (pos 50) (max after 0) (left_or talk.latest_seq seat.left_seq) three_texts.messages

pull_pages-visible_example :
    (pull_pages 4 (pos 2) (pos 50) (pos 2) 0 three_texts ≡ some (from_first 0))
    × Above (max 0 (seat.joined_seq - 1)) (from_first 0)
unfolding lookup find_member rows_between
pull_pages-visible_example =
    pull_pages-visible (pos 2) (pos 50) (pos 2) three_texts talk seat refl refl refl refl refl 4 0
      (omega arith)
