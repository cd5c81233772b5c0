-- ===== src/Store/History.antt =====
-- Every history of the message tables: the transactions of the program, one after the other.
pub mod Kept
pub mod Sequence
pub mod Dense
pub mod Lifecycle
pub mod Retry
pub mod Again
use wim.Prelude.{Bool, String, ℕ, ℤ}
use wim.Store.{Ending, Tables}
use wim.Store.Accept.{TextCommand, accept_direct_text, accept_group_text}
use wim.Store.Receipts.{
  acknowledge_conversation_message, receipt_status, update_message_for_receiver,
}

pub data Step (t : Tables) : Tables → Type 0 where
  directs : (ending : Ending) (text : TextCommand) → Step t (accept_direct_text ending text t).0
  groups : (ending : Ending) (text : TextCommand) → Step t (accept_group_text ending text t).0
  receives :
      (ending : Ending) (id receiver : ℤ) (read : Bool) (time : String)
      → Step t (update_message_for_receiver ending id receiver (receipt_status read) time t).0
  acknowledges :
      (ending : Ending) (id uid conversation seq : ℤ) (read : Bool) (time : String)
      → Step t
          (acknowledge_conversation_message ending id uid conversation seq
            (receipt_status read)
            time
            t).0

pub data Run (t : Tables) : Tables → Type 0 where
  here : Run t t
  next : {u v : Tables} → Run t u → Step u v → Run t v
