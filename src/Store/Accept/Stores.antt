-- ===== src/Store/Accept/Stores.antt =====
-- A direct text adds one message, or none.
use wim.Prelude.{
  Bool, Option, String, [], ap, eqb, false, if_elim, inl, inr, int_eq, nat_eq, none, not, refl,
  some, string_eq, ℕ, ℤ, ◌&&◌, ◌++◌, ◌+◌, ◌∷◌, ◌≡◌, ◌⊎◌,
}
use wim.Prelude.Map.{lookup}
use wim.Protocol.{error_value, success}
use wim.Store.{Conversation, MessageRow, Tables, direct_conversation}
use wim.Store.Accept.{
  AcceptResult, TextCommand, accepted_as, append_text, direct_between, direct_tables, find_message,
  is_member, join_member, new_row, open_conversation, open_missing, same_command, store_checked,
  store_locked, store_text,
}

-- What opening the conversation and seating its members leaves alone.
abbrev pub Untouched : Tables → Tables → Type 0
Untouched t u = (u.friends ≡ t.friends) × (u.messages ≡ t.messages)

join_member-Untouched :
    (conversation : ℤ) (joined : ℕ) (uid : ℤ) (t u : Tables)
    → Untouched t u
    → Untouched t (join_member conversation joined uid u)
unfolding join_member
join_member-Untouched conversation joined uid t u v =
    if_elim (Untouched t) (is_member conversation uid u.members) (λ _. v) (λ _. v)

open_missing-Untouched :
    (o : Option Conversation) (conversation : ℤ) (kind : ℕ) (business : ℤ) (now : String)
    (t : Tables)
    → Untouched t (open_missing o conversation kind business now t)
open_missing-Untouched none conversation kind business now t = (refl, refl)
open_missing-Untouched (some d) conversation kind business now t = (refl, refl)

pub direct_tables-Untouched :
    (conversation : ℤ) (text : TextCommand) (t : Tables)
    → Untouched t (direct_tables conversation text t)
unfolding open_conversation
direct_tables-Untouched conversation text t =
    join_member-Untouched conversation 1 text.receiver t _ (
      join_member-Untouched conversation 1 text.sender t _ (
        open_missing-Untouched (lookup conversation t.conversations) conversation
          direct_conversation conversation text.send_date_time t))

-- One message more, and the answer says so.
abbrev pub Adds : TextCommand → Tables → Tables × AcceptResult → Type 0
Adds text t r =
    (conversation : ℤ) × (seq : ℕ) × (id : ℕ) × (r.0.messages
      ≡ t.messages ++ (new_row conversation seq id text ∷ []))
    × (r.1 ≡ accepted_as false id conversation seq [])

abbrev pub is_new : AcceptResult → Bool
is_new r = eqb r.error (error_value success) && not r.duplicate

-- The same messages, and the answer does not speak of a new one.
abbrev pub AddsNothing : Tables → Tables × AcceptResult → Type 0
AddsNothing t r = (r.0.messages ≡ t.messages) × (is_new r.1 ≡ false)

abbrev AddsOne : TextCommand → Tables → Tables × AcceptResult → Type 0
AddsOne text t r = Adds text t r ⊎ AddsNothing t r

store_checked-AddsOne :
    (conversation : ℤ) (d : Conversation) (text : TextCommand) (o : Option MessageRow)
    (before t : Tables)
    → t.messages ≡ before.messages
    → AddsOne text before (store_checked conversation d text [] o before t)
unfolding append_text error_value
store_checked-AddsOne conversation d text none before t e = inl (
  conversation,
  d.latest_seq + 1,
  t.next_message_id,
  ap (λ x. x ++ (new_row conversation (d.latest_seq + 1) t.next_message_id text ∷ [])) e,
  refl,
)
store_checked-AddsOne conversation d text (some row) before t e =
    if_elim (AddsOne text before) (same_command conversation text row) (λ _. inr (e, refl))
      (λ _. inr (refl, refl))

store_locked-AddsOne :
    (conversation : ℤ) (text : TextCommand) (o : Option Conversation) (before t : Tables)
    → t.messages ≡ before.messages
    → AddsOne text before (store_locked conversation text [] o before t)
unfolding error_value
store_locked-AddsOne conversation text none before t e = inr (refl, refl)
store_locked-AddsOne conversation text (some d) before t e =
    store_checked-AddsOne conversation d text
      (find_message text.sender text.client_message_id t.messages) before t e

pub direct_between-AddsOne :
    (o : Option ℤ) (text : TextCommand) (t : Tables)
    → Adds text t (direct_between o text t) ⊎ AddsNothing t (direct_between o text t)
unfolding store_text error_value
direct_between-AddsOne none text t = inr (refl, refl)
direct_between-AddsOne (some conversation) text t =
    let u = direct_tables conversation text t in
    store_locked-AddsOne conversation text (lookup conversation u.conversations) t u
      (direct_tables-Untouched conversation text t).1
