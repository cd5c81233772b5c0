-- ===== src/Store.antt =====
-- The message tables of the server's database, as the statements of server/public/include/Mysql.h read and
-- write them (the schema is scripts/sql/init_message_mysql_test.sql). A table is a list of rows, in the
-- order of their insertion. A transaction is one step: the statements lock the row of the conversation.
pub mod Accept
pub mod Receipts
pub mod Sync
pub mod History
use wim.Prelude.{List, Option, String, ℕ, ℤ}
use wim.Prelude.Map.{Map}

-- A row of `messages`, without the columns that are written and never read again (commandHash,
-- sessionKey).
pub record MessageRow : Type 0 where
  pub message_id : ℕ
  pub sender_id : ℤ
  pub receiver_id : ℤ
  pub conversation_id : ℤ
  pub conversation_seq : ℕ
  pub client_message_id : String
  pub kind : ℕ
  pub content : String
  pub status : ℕ
  pub send_date_time : String
  pub read_date_time : String

pub record Conversation : Type 0 where
  pub kind : ℕ
  pub business_id : ℤ
  pub latest_seq : ℕ
  pub create_time : String

-- A row of `conversationMembers`.
pub record Member : Type 0 where
  pub conversation_id : ℤ
  pub uid : ℤ
  pub joined_seq : ℕ
  pub left_seq : Option ℕ
  pub delivered_seq : ℕ
  pub read_seq : ℕ

-- A row of `groupMembers`.
pub record GroupMember : Type 0 where
  pub gid : ℤ
  pub uid : ℤ
  pub speech : ℕ

-- `friends` gives the sessionId of a pair of users and `group_info` the sessionKey of a group.
-- `next_message_id` is the AUTO_INCREMENT counter of `messages`.
pub record Tables : Type 0 where
  pub friends : ℤ → ℤ → Option ℤ
  pub group_info : ℤ → Option ℤ
  pub group_members : List GroupMember
  pub conversations : Map ℤ Conversation
  pub members : List Member
  pub messages : List MessageRow
  pub next_message_id : ℕ

-- How a transaction ends: committed; undone by an exception, which may still have used up ids; committed
-- with an exception in place of the answer; or not begun, without a connection.
pub data Ending : Type 0 where
  committed lost_reply no_session : Ending
  undone : ℕ → Ending

-- Message::Type and Message::Status
abbrev pub text_message : ℕ
text_message = 1

abbrev pub status_wait : ℕ
status_wait = 1

abbrev pub status_delivered : ℕ
status_delivered = 2

abbrev pub status_read : ℕ
status_read = 3

abbrev pub direct_conversation : ℕ
direct_conversation = 1

abbrev pub group_conversation : ℕ
group_conversation = 2
