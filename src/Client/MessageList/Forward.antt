-- ===== src/Client/MessageList/Forward.antt =====
-- How the state of a message can change over its life in the list.
use wim.Prelude.{
  Bool, List, [], ap, arith, if_elim, inl, inr, int_eq, nat_eq, not, refl, string_eq, true, ℕ, ℤ,
  ◌++◌, ◌==◌, ◌∙◌, ◌∷◌, ◌≡◌, ◌≢◌, ◌≤◌, ◌⊎◌,
}
use wim.Client.MessageList.{
  MessageDeliveryState, MessageListModel, MessageRecord, accepted_state, append, can_transition,
  delivered_state, permanent_failed, read_state, update_delivery_state, update_rows,
}

-- How far a state is known to have got at the server; the states before acceptance come first.
abbrev pub reached : MessageDeliveryState → ℕ
reached accepted_state = 1
reached delivered_state = 2
reached read_state = 3
reached _ = 0

pub data Update : Type 0 where
  updates : ℤ → MessageDeliveryState → Update
  appends : MessageRecord → Update

abbrev pub apply : Update → MessageListModel → MessageListModel
apply (updates id state) m = (update_delivery_state id state m).0
apply (appends r) m = append r m

abbrev pub apply_all : List Update → MessageListModel → MessageListModel
apply_all [] m = m
apply_all (u ∷ rest) m = apply_all rest (apply u m)

-- One message, before and after: only its state may differ, and it never falls back.
pub record Advances (a b : MessageRecord) : Type 0 where
  pub same : record b { delivery_state = a.delivery_state } ≡ a
  pub forward : reached a.delivery_state ≤ reached b.delivery_state
  pub failed_stays : (a.delivery_state ≢ permanent_failed) ⊎ (b.delivery_state ≡ permanent_failed)

abbrev pub RowsAdvance : List MessageRecord → List MessageRecord → Type 0
RowsAdvance [] q = Unit
RowsAdvance (a ∷ p) [] = ⊥
RowsAdvance (a ∷ p) (b ∷ q) = Advances a b × RowsAdvance p q

transition-forward :
    (from to : MessageDeliveryState)
    → can_transition from to ≡ true
    → (reached from ≤ reached to) × (from ≢ permanent_failed)
unfolding can_transition
transition-forward from to h = ground (arith, h)

not_failed : (s : MessageDeliveryState) → (s ≢ permanent_failed) ⊎ (s ≡ permanent_failed)
not_failed s = ground arith

stays : (a : MessageRecord) → Advances a a
stays a = record { same = refl; forward = omega arith; failed_stays = not_failed a.delivery_state }

rows_stay : (p : List MessageRecord) → RowsAdvance p p
rows_stay [] = tt
rows_stay (a ∷ p) = (stays a, rows_stay p)

update_rows-Advances :
    (id : ℤ) (state : MessageDeliveryState) (p : List MessageRecord)
    → RowsAdvance p (update_rows id state p).0
unfolding update_rows
update_rows-Advances id state [] = tt
update_rows-Advances id state (r ∷ rest) =
    if_elim P (not (r.client_message_id == id)) (λ _. (stays r, update_rows-Advances id state rest))
      (λ _.
        if_elim P (not (can_transition r.delivery_state state)) (λ _. rows_stay (r ∷ rest))
          (λ ok. (moved (ground (arith, ok)), rows_stay rest)))
  where
    P : List MessageRecord × Bool → Type 0
    P q = RowsAdvance (r ∷ rest) q.0

    moved :
        can_transition r.delivery_state state ≡ true
        → Advances r (record r { delivery_state = state })
    moved ok =
        let t = transition-forward r.delivery_state state ok in
        record { same = refl; forward = t.0; failed_stays = inl t.1 }

advance_further : {a b c : MessageRecord} → Advances a b → Advances b c → Advances a c
advance_further {a} {b} {c} x y = record {
  same = ap back y.same ∙ x.same;
  forward = omega (arith, x.forward, y.forward);
  failed_stays = elim x.failed_stays [
    | inl h ↦ inl h
    | inr b_failed ↦ elim y.failed_stays [
      | inl h ↦ absurd (h b_failed)
      | inr c_failed ↦ inr c_failed
    ]
  ];
}
  where
    back : MessageRecord → MessageRecord
    back r = record r { delivery_state = a.delivery_state }

rows_further : (p q r : List MessageRecord) → RowsAdvance p q → RowsAdvance q r → RowsAdvance p r
rows_further [] q r x y = tt
rows_further (a ∷ p) [] r x y = absurd x
rows_further (a ∷ p) (b ∷ q) [] x y = absurd y
rows_further (a ∷ p) (b ∷ q) (c ∷ r) x y = (advance_further x.0 y.0, rows_further p q r x.1 y.1)

rows_append : (p q : List MessageRecord) → RowsAdvance p (p ++ q)
rows_append [] q = tt
rows_append (a ∷ p) q = (stays a, rows_append p q)

-- Through any sequence of state updates and new messages, each message keeps its row and everything but
-- its state; what it has reached at the server (accepted, delivered, read) is never taken back; and a
-- message that has failed for good stays so.
pub messages_advance :
    (us : List Update) (m : MessageListModel) → RowsAdvance m.records (apply_all us m).records
unfolding update_delivery_state append
messages_advance [] m = rows_stay m.records
messages_advance (updates id state ∷ us) m =
    rows_further m.records (update_rows id state m.records).0
      (apply_all us (update_delivery_state id state m).0).records
      (update_rows-Advances id state m.records)
      (messages_advance us (update_delivery_state id state m).0)
messages_advance (appends r ∷ us) m =
    rows_further m.records (m.records ++ (r ∷ [])) (apply_all us (append r m)).records
      (rows_append m.records (r ∷ [])) (messages_advance us (append r m))
