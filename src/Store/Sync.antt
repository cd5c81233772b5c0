-- ===== src/Store/Sync.antt =====
-- MysqlDao::syncConversation (server/public/include/Mysql.h): one page of a conversation.
pub mod Rows
pub mod Pages
use wim.Prelude.{
  Bool, List, Option, [], false, if◌then◌else◌, int_eq, is_negative, is_positive, leb, length, ltb,
  max, min, nat_eq, none, not, pos_part, some, string_eq, take, ℕ, ℤ, ◌&&◌, ◌+◌, ◌-◌, ◌==◌, ◌||◌,
  ◌∷◌,
}
use wim.Client.Connection.Ledger.{count}
use wim.Gateway.Session.Reliable.{left}
use wim.Prelude.Map.{lookup}
use wim.Protocol.{
  ErrorCodes, error_value, json_parser, message_ownership_invalid, mysql_failed, success,
}
use wim.Store.{Conversation, Member, MessageRow, Tables}

pub record SyncResult : Type 0 where
  pub error : ℕ
  pub conversation_type : ℕ
  pub latest_seq : ℕ
  pub next_seq : ℕ
  pub has_more : Bool
  pub messages : List MessageRow

abbrev pub no_sync : ErrorCodes → SyncResult
no_sync code = record {
  error = error_value code;
  conversation_type = 0;
  latest_seq = 0;
  next_seq = 0;
  has_more = false;
  messages = [];
}

unfoldable pub find_member : ℤ → ℤ → List Member → Option Member
find_member conversation uid [] = none
find_member conversation uid (m ∷ ms) =
    if m.conversation_id == conversation && m.uid == uid
    then some m
    else find_member conversation uid ms

-- WHERE conversationId = ? AND conversationSeq > ? AND conversationSeq <= ?
unfoldable pub rows_between : ℤ → ℕ → ℕ → List MessageRow → List MessageRow
rows_between conversation after left [] = []
rows_between conversation after left (m ∷ ms) =
    let rest = rows_between conversation after left ms in
    if m.conversation_id == conversation
      && ltb after m.conversation_seq
      && leb m.conversation_seq left
    then m ∷ rest
    else rest

unfoldable pub insert_by_seq : MessageRow → List MessageRow → List MessageRow
insert_by_seq m [] = m ∷ []
insert_by_seq m (n ∷ ns) =
    let rest = insert_by_seq m ns in
    if leb m.conversation_seq n.conversation_seq then m ∷ n ∷ ns else n ∷ rest

-- ORDER BY conversationSeq ASC
unfoldable pub order_by_seq : List MessageRow → List MessageRow
order_by_seq [] = []
order_by_seq (m ∷ ms) = insert_by_seq m (order_by_seq ms)

-- `std::clamp(pullCount > 0 ? pullCount : 50, 1, 100)`
unfoldable pub page_size : ℤ → ℕ
page_size count = if is_positive count then min 100 (pos_part count) else 50

-- The sequence number of the last row, or the cursor if there is none.
unfoldable pub last_seq : ℕ → List MessageRow → ℕ
last_seq after [] = after
last_seq after (m ∷ ms) = last_seq m.conversation_seq ms

-- The loop over the rows of the query with LIMIT count + 1.
unfoldable pub cut_page : Conversation → ℕ → ℕ → List MessageRow → SyncResult
cut_page c after count rows = record {
  error = error_value success;
  conversation_type = c.kind;
  latest_seq = c.latest_seq;
  next_seq = last_seq after (take count rows);
  has_more = ltb count (length (take (count + 1) rows));
  messages = take count rows;
}

abbrev pub left_or : ℕ → Option ℕ → ℕ
left_or latest none = latest
left_or latest (some left) = left

abbrev pub sync_member :
    Option Conversation → Option Member → ℤ → ℕ → ℕ → List MessageRow → SyncResult
sync_member none m conversation after count rows = no_sync message_ownership_invalid
sync_member (some c) none conversation after count rows = no_sync message_ownership_invalid
sync_member (some c) (some m) conversation after count rows =
    let from = max after (m.joined_seq - 1) in
    cut_page c from count
      (order_by_seq (rows_between conversation from (left_or c.latest_seq m.left_seq) rows))

-- `available` is whether a session could be had and the statements succeeded.
unfoldable pub sync_conversation : Bool → ℤ → ℤ → ℤ → ℤ → Tables → SyncResult
sync_conversation available uid conversation after count t =
    if not (is_positive uid) || not (is_positive conversation) || is_negative after
    then no_sync json_parser
    else if not available
    then no_sync mysql_failed
    else sync_member (lookup conversation t.conversations) (find_member conversation uid t.members)
        conversation (pos_part after) (page_size count) t.messages
