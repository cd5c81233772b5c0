-- ===== src/Store/Accept/Whole.antt =====
-- A text is stored whole or not at all.
use wim.Prelude.{List, Option, [], eqb, if_elim, inl, inr, none, refl, some, ℕ, ℤ, ◌≡◌, ◌⊎◌}
use wim.Protocol.{error_value, success}
use wim.Store.{Conversation, Ending, MessageRow, Tables, committed, lost_reply, no_session, undone}
use wim.Store.Accept.{
  AcceptResult, TextCommand, accept_direct_text, accept_group_text, direct_between, direct_body,
  direct_tables, find_message, find_speech, finish_accept, group_among, group_body, group_tables,
  other_members, same_command, store_checked, store_locked, store_text,
}

abbrev pub SameRows : Tables → Tables → Type 0
SameRows t u =
    (u.conversations ≡ t.conversations) × (u.members ≡ t.members) × (u.messages ≡ t.messages)

abbrev WholeBody : Tables → Tables × AcceptResult → Type 0
WholeBody t r = (r.1.error ≡ error_value success) ⊎ SameRows t r.0

store_checked-WholeBody :
    (conversation : ℤ) (d : Conversation) (text : TextCommand) (recipients : List ℤ)
    (o : Option MessageRow) (before t : Tables)
    → WholeBody before (store_checked conversation d text recipients o before t)
store_checked-WholeBody conversation d text recipients none before t = inl refl
store_checked-WholeBody conversation d text recipients (some row) before t =
    if_elim (WholeBody before) (same_command conversation text row) (λ _. inl refl)
      (λ _. inr (refl, refl, refl))

store_locked-WholeBody :
    (conversation : ℤ) (text : TextCommand) (recipients : List ℤ) (o : Option Conversation)
    (before t : Tables)
    → WholeBody before (store_locked conversation text recipients o before t)
store_locked-WholeBody conversation text recipients none before t = inr (refl, refl, refl)
store_locked-WholeBody conversation text recipients (some d) before t =
    store_checked-WholeBody conversation d text recipients
      (find_message text.sender text.client_message_id t.messages) before t

direct_between-WholeBody :
    (o : Option ℤ) (text : TextCommand) (t : Tables) → WholeBody t (direct_between o text t)
unfolding store_text
direct_between-WholeBody none text t = inr (refl, refl, refl)
direct_between-WholeBody (some conversation) text t =
    store_locked-WholeBody conversation text [] _ t (direct_tables conversation text t)

group_among-WholeBody :
    (o : Option ℤ) (speech : Option ℕ) (text : TextCommand) (t : Tables)
    → WholeBody t (group_among o speech text t)
unfolding store_text
group_among-WholeBody none speech text t = inr (refl, refl, refl)
group_among-WholeBody (some conversation) none text t = inr (refl, refl, refl)
group_among-WholeBody (some conversation) (some speech) text t =
    if_elim (WholeBody t) (eqb speech 0)
      (λ _.
        store_locked-WholeBody conversation text
          (other_members text.receiver text.sender t.group_members) _ t
          (group_tables conversation text t))
      (λ _. inr (refl, refl, refl))

abbrev pub Whole : Ending → Tables → Tables × AcceptResult → Type 0
Whole ending t r = (r.1.error ≡ error_value success) ⊎ SameRows t r.0 ⊎ (ending ≡ lost_reply)

finish_accept-Whole :
    (ending : Ending) (r : Tables × AcceptResult) (t : Tables)
    → WholeBody t r
    → Whole ending t (finish_accept ending r t)
unfolding finish_accept
finish_accept-Whole committed r t (inl ok) = inl ok
finish_accept-Whole committed r t (inr same) = inr (inl same)
finish_accept-Whole lost_reply r t w = inr (inr refl)
finish_accept-Whole no_session r t w = inr (inl (refl, refl, refl))
finish_accept-Whole (undone ids) r t w = inr (inl (refl, refl, refl))

-- However the transaction of a text to a user or to a group ends: the answer is success; or the
-- conversations, the members and the messages are as before; or the reply to a committed transaction was
-- lost.
pub accept_all_or_nothing :
    (ending : Ending) (text : TextCommand) (t : Tables)
    → Whole ending t (accept_direct_text ending text t)
      × Whole ending t (accept_group_text ending text t)
unfolding accept_direct_text direct_body accept_group_text group_body
accept_all_or_nothing ending text t = (
  finish_accept-Whole ending (direct_body text t) t
      (direct_between-WholeBody (t.friends text.sender text.receiver) text t),
  finish_accept-Whole ending (group_body text t) t (
      group_among-WholeBody (t.group_info text.receiver)
        (find_speech text.receiver text.sender t.group_members) text t),
)
