-- ===== src/Client/MessageList.antt =====
-- client/src/models/MessageListModel.cc: the messages of the open conversation and how far each one has got.
-- Signals to Qt's views, and the texts that `data` makes of a record, are left out.
pub mod Forward
use wim.Prelude.{
  Bool, List, Option, String, [], eqb, false, if◌then◌else◌, int_eq, length, ltb, min, nat_eq, none,
  not, some, string_eq, true, ℕ, ℤ, ◌++◌, ◌-◌, ◌==◌, ◌||◌, ◌∷◌,
}

pub data MessageDeliveryState : Type 0 where
  pending_local waiting_accept accepted_state delivered_state read_state : MessageDeliveryState
  unknown_state retryable_failed permanent_failed : MessageDeliveryState

pub record MessageRecord : Type 0 where
  pub client_message_id : ℤ
  pub message_id : Option ℤ
  pub conversation_seq : Option ℤ
  pub sender_id : String
  pub body : String
  pub timestamp : String
  pub outgoing : Bool
  pub delivery_state : MessageDeliveryState

-- `unread_separator_index_`; `none` is -1.
pub record MessageListModel : Type 0 where
  pub records : List MessageRecord
  pub unread_separator_index : Option ℕ

abbrev pub state_number : MessageDeliveryState → ℕ
state_number pending_local = 0
state_number waiting_accept = 1
state_number accepted_state = 2
state_number delivered_state = 3
state_number read_state = 4
state_number unknown_state = 5
state_number retryable_failed = 6
state_number permanent_failed = 7

abbrev pub is_state : MessageDeliveryState → MessageDeliveryState → Bool
is_state a b = eqb (state_number a) (state_number b)

-- The switch of `CanTransition`.
abbrev pub targets : MessageDeliveryState → MessageDeliveryState → Bool
targets pending_local to =
    is_state to waiting_accept
    || is_state to unknown_state
    || is_state to retryable_failed
    || is_state to permanent_failed
targets waiting_accept to =
    is_state to accepted_state
    || is_state to unknown_state
    || is_state to retryable_failed
    || is_state to permanent_failed
targets accepted_state to = is_state to delivered_state || is_state to read_state
targets delivered_state to = is_state to read_state
targets unknown_state to =
    is_state to waiting_accept
    || is_state to accepted_state
    || is_state to delivered_state
    || is_state to read_state
    || is_state to retryable_failed
    || is_state to permanent_failed
targets retryable_failed to =
    is_state to pending_local
    || is_state to waiting_accept
    || is_state to accepted_state
    || is_state to permanent_failed
targets read_state to = false
targets permanent_failed to = false

unfoldable pub can_transition : MessageDeliveryState → MessageDeliveryState → Bool
can_transition from to = if is_state from to then false else targets from to

-- The loop of `UpdateDeliveryState` over the rows, and what it returns.
unfoldable pub update_rows :
    ℤ → MessageDeliveryState → List MessageRecord → List MessageRecord × Bool
unfolding can_transition
update_rows id state [] = ([], false)
update_rows id state (r ∷ rest) =
    let later = update_rows id state rest in
    if not (r.client_message_id == id)
    then (r ∷ later.0, later.1)
    else if not (can_transition r.delivery_state state)
    then (r ∷ rest, false)
    else (record r { delivery_state = state } ∷ rest, true)

unfoldable pub update_delivery_state :
    ℤ → MessageDeliveryState → MessageListModel → MessageListModel × Bool
unfolding update_rows
update_delivery_state id state m =
    (record m { records = (update_rows id state m.records).0 }, (update_rows id state m.records).1)

-- `SetRecords`; a negative `unreadCount` is `none`, and leaves the separator where it was.
unfoldable pub set_records : List MessageRecord → Option ℕ → MessageListModel → MessageListModel
set_records records none m = record m { records = records }
set_records records (some unread_count) m =
    let bounded = min unread_count (length records) in
    record {
      records = records;
      unread_separator_index = if ltb 0 bounded then some (length records - bounded) else none;
    }

unfoldable pub append : MessageRecord → MessageListModel → MessageListModel
append r m = record m { records = m.records ++ (r ∷ []) }
