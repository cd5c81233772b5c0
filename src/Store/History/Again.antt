-- ===== src/Store/History/Again.antt =====
-- The answer to a text that is sent again (acceptDirectText of server/public/include/Mysql.h).
use wim.Prelude.{
  ==_refl, ==→eq, Bool, Option, String, [], ap, arith, eqb_iff, false, if_elim, if◌then◌else◌,
  int_eq, nat_eq, none, refl, some, string_eq, true, ℕ, ℤ, ◌+◌, ◌∙◌, ◌≡◌,
}
use wim.Prelude.Map.{lookup, lookup_inserted}
use wim.Protocol.{error_value, success}
use wim.Store.{
  Conversation, MessageRow, Tables, committed, direct_conversation, lost_reply, text_message,
}
use wim.Store.Accept.{
  AcceptResult, TextCommand, accept_direct_text, accepted_as, append_text, direct_between,
  direct_body, direct_tables, find_message, finish_accept, is_member, join_member, new_row,
  open_conversation, open_missing, same_command, store_checked, store_locked, store_text,
}
use wim.Store.Accept.Stores.{direct_tables-Untouched}
use wim.Store.History.{Run}
use wim.Store.History.Kept.{Run_kept}
use wim.Store.History.Retry.{Holds, Stored, Stored-Closed, find_message-appended}

-- The conversation is there once it has been opened.
abbrev IsOpen : ℤ → Tables → Type 0
IsOpen conversation t = (c : Conversation) × (lookup conversation t.conversations ≡ some c)

open_missing-IsOpen :
    (o : Option Conversation) (conversation : ℤ) (kind : ℕ) (business : ℤ) (now : String)
    (t : Tables)
    → lookup conversation t.conversations ≡ o
    → IsOpen conversation (open_missing o conversation kind business now t)
open_missing-IsOpen none conversation kind business now t e = (
  record { kind = kind; business_id = business; latest_seq = 0; create_time = now },
  lookup_inserted conversation _ t.conversations,
)
open_missing-IsOpen (some d) conversation kind business now t e = (d, e)

join_member-IsOpen :
    (conversation : ℤ) (joined : ℕ) (uid : ℤ) (t : Tables)
    → IsOpen conversation t
    → IsOpen conversation (join_member conversation joined uid t)
unfolding join_member
join_member-IsOpen conversation joined uid t v =
    if_elim (IsOpen conversation) (is_member conversation uid t.members) (λ _. v) (λ _. v)

direct_tables-IsOpen :
    (conversation : ℤ) (text : TextCommand) (t : Tables)
    → IsOpen conversation (direct_tables conversation text t)
unfolding open_conversation
direct_tables-IsOpen conversation text t = join_member-IsOpen conversation 1 text.receiver _ (
    join_member-IsOpen conversation 1 text.sender _ (
      open_missing-IsOpen (lookup conversation t.conversations) conversation direct_conversation
        conversation text.send_date_time t refl))

same_command-Holds :
    (conversation : ℤ) (text : TextCommand) (row : MessageRow)
    → same_command conversation text row ≡ true
    → Holds text row.message_id conversation row.conversation_seq row
unfolding same_command
same_command-Holds conversation text row h = (
  refl,
  ==→eq row.conversation_id conversation (ground arith),
  refl,
  ==→eq row.receiver_id text.receiver (ground arith),
  ground (arith, eqb_iff row.kind text_message),
  ==→eq row.content text.content (ground arith),
)

-- A success of the duplicate check leaves the text stored under the ids of the answer.
store_checked-Stored :
    (conversation : ℤ) (d : Conversation) (text : TextCommand) (o : Option MessageRow)
    (before t : Tables)
    → find_message text.sender text.client_message_id t.messages ≡ o
    → t.friends text.sender text.receiver ≡ some conversation
    → (store_checked conversation d text [] o before t).1.error ≡ error_value success
    → let r = store_checked conversation d text [] o before t in
      Stored text r.1.message_id r.1.conversation_id r.1.conversation_seq r.0
unfolding append_text error_value
store_checked-Stored conversation d text none before t f g h = (
  g,
  (
    new_row conversation (d.latest_seq + 1) t.next_message_id text,
    find_message-appended text.sender text.client_message_id t.messages _ f
        (rw (==_refl text.sender, ==_refl text.client_message_id) refl),
    (refl, refl, refl, refl, refl, refl),
  ),
)
store_checked-Stored conversation d text (some row) before t f g h =
    if_elim
      (λ (r : Tables × AcceptResult).
        r.1.error ≡ error_value success
        → Stored text r.1.message_id r.1.conversation_id r.1.conversation_seq r.0)
      (same_command conversation text row)
      (λ same _. (g, (row, f, same_command-Holds conversation text row same)))
      (λ other bad. absurd (omega (arith, bad))) h

abbrev AsAnswered : TextCommand → Tables × AcceptResult → Type 0
AsAnswered text r = Stored text r.1.message_id r.1.conversation_id r.1.conversation_seq r.0

store_locked-Stored :
    (conversation : ℤ) (text : TextCommand) (o : Option Conversation) (before t : Tables)
    → t.friends text.sender text.receiver ≡ some conversation
    → (store_locked conversation text [] o before t).1.error ≡ error_value success
    → AsAnswered text (store_locked conversation text [] o before t)
unfolding error_value
store_locked-Stored conversation text none before t g h = absurd (omega (arith, h))
store_locked-Stored conversation text (some d) before t g h =
    store_checked-Stored conversation d text
      (find_message text.sender text.client_message_id t.messages) before t refl g h

direct_between-Stored :
    (o : Option ℤ) (text : TextCommand) (t : Tables)
    → t.friends text.sender text.receiver ≡ o
    → (direct_between o text t).1.error ≡ error_value success
    → AsAnswered text (direct_between o text t)
unfolding error_value store_text
direct_between-Stored none text t e h = absurd (omega (arith, h))
direct_between-Stored (some conversation) text t e h =
    let u = direct_tables conversation text t in
    store_locked-Stored conversation text (lookup conversation u.conversations) t u
      (ap (λ f. f text.sender text.receiver) (direct_tables-Untouched conversation text t).0 ∙ e) h

answered_body :
    (text : TextCommand) (t : Tables)
    → (direct_body text t).1.error ≡ error_value success
    → AsAnswered text (direct_body text t)
unfolding direct_body
answered_body text t h = direct_between-Stored (t.friends text.sender text.receiver) text t refl h

-- The same text, sent at another time.
abbrev pub again_at : String → TextCommand → TextCommand
again_at later text = record text { send_date_time = later }

known_text :
    (later : String) (text : TextCommand) (id : ℕ) (conversation : ℤ) (seq : ℕ) (u : Tables)
    → Stored text id conversation seq u
    → direct_body (again_at later text) u ≡ (
      direct_tables conversation (again_at later text) u,
      accepted_as true id conversation seq [],
    )
unfolding direct_body store_text same_command
known_text later text id conversation seq u v =
    let w = direct_tables conversation (again_at later text) u in
    let there = direct_tables-IsOpen conversation (again_at later text) u in
    let found : find_message text.sender text.client_message_id w.messages ≡ some v.1.0 =
      ap (find_message text.sender text.client_message_id)
        (direct_tables-Untouched conversation (again_at later text) u).1
      ∙ v.1.1 in
    let h = v.1.2 in
    rw
      (
        v.0,
        there.1,
        found,
        h.1,
        h.3,
        h.4,
        h.5,
        ==_refl conversation,
        ==_refl text.receiver,
        ==_refl text.content,
        h.0,
        h.2,
      )
      refl

-- If the transaction of a direct text succeeds, then whether its answer arrived or was lost, and whatever
-- texts and receipts follow: if the same text is sent again, at any later time, and its transaction
-- commits and is not cut off, it is answered with success
-- as a duplicate, with the message id, the conversation and the sequence number of the first time, and
-- stores no further message.
pub retry_recognised :
    (lost : Bool) (later : String) (text : TextCommand) (t : Tables) {u : Tables}
    → (direct_body text t).1.error ≡ error_value success
    → Run (accept_direct_text (if lost then lost_reply else committed) text t).0 u
    → ((accept_direct_text committed (again_at later text) u).1
        ≡ accepted_as true
            (direct_body text t).1.message_id
            (direct_body text t).1.conversation_id
            (direct_body text t).1.conversation_seq
            [])
      × ((accept_direct_text committed (again_at later text) u).0.messages ≡ u.messages)
unfolding accept_direct_text finish_accept
retry_recognised lost later text t {u} ok r =
    let first = (direct_body text t).1 in
    let P = Stored text first.message_id first.conversation_id first.conversation_seq in
    let v : P u =
      Run_kept P (Stored-Closed text first.message_id first.conversation_id first.conversation_seq)
        r (whichever lost) in
    let e =
      known_text later text first.message_id first.conversation_id first.conversation_seq u v in
    (
      ap (λ x. x.1) e,
      ap (λ x. x.0.messages) e
          ∙ (direct_tables-Untouched first.conversation_id (again_at later text) u).1,
    )
  where
    whichever :
        (lost : Bool)
        → Stored text
            (direct_body text t).1.message_id
            (direct_body text t).1.conversation_id
            (direct_body text t).1.conversation_seq
            (accept_direct_text (if lost then lost_reply else committed) text t).0
    whichever true = answered_body text t ok
    whichever false = answered_body text t ok
