-- ===== src/Store/History/Retry.antt =====
-- A text that was accepted is recognised when it is sent again, also when the first answer was lost.
use wim.Prelude.{
  Bool, List, Option, String, [], arith, if_elim, if◌then◌else◌, int_eq, nat_eq, none, refl, some,
  string_eq, true, ℕ, ℤ, ◌&&◌, ◌++◌, ◌==◌, ◌∙◌, ◌∷◌, ◌≡◌,
}
use wim.Prelude.Map.{lookup}
use wim.Store.{Conversation, MessageRow, Tables, text_message}
use wim.Store.Accept.{TextCommand, append_text, find_message, open_missing}
use wim.Store.History.Kept.{Advanced, Closed}
use wim.Store.Receipts.{update_rows}

-- The row that stands under a text's key.
abbrev pub Holds : TextCommand → ℕ → ℤ → ℕ → MessageRow → Type 0
Holds text id conversation seq m =
    (m.message_id ≡ id)
    × (m.conversation_id ≡ conversation)
    × (m.conversation_seq ≡ seq)
    × (m.receiver_id ≡ text.receiver)
    × (m.kind ≡ text_message)
    × (m.content ≡ text.content)

abbrev pub Stored : TextCommand → ℕ → ℤ → ℕ → Tables → Type 0
Stored text id conversation seq t =
    (t.friends text.sender text.receiver ≡ some conversation)
    × ((m : MessageRow) × (find_message text.sender text.client_message_id t.messages ≡ some m)
        × Holds text id conversation seq m)

find_message-append :
    (s : ℤ) (c : String) (ms : List MessageRow) (m n : MessageRow)
    → find_message s c ms ≡ some m
    → find_message s c (ms ++ (n ∷ [])) ≡ some m
unfolding find_message
find_message-append s c [] m n h = cc
find_message-append s c (o ∷ ms) m n h = ground (arith, find_message-append s c ms m n)

pub find_message-appended :
    (s : ℤ) (c : String) (ms : List MessageRow) (n : MessageRow)
    → find_message s c ms ≡ none
    → (n.sender_id == s && n.client_message_id == c) ≡ true
    → find_message s c (ms ++ (n ∷ [])) ≡ some n
unfolding find_message
find_message-appended s c [] n h e = rw e refl
find_message-appended s c (o ∷ ms) n h e = ground (arith, find_message-appended s c ms n)

-- The row found after an update is the row found before, updated or not.
find_message-update_rows :
    (s : ℤ) (c : String) (test : MessageRow → Bool) (change : MessageRow → MessageRow)
    (ms : List MessageRow) (m : MessageRow)
    → ((o : MessageRow) → Advanced o (change o))
    → find_message s c ms ≡ some m
    → find_message s c (update_rows test change ms) ≡ some (if test m then change m else m)
unfolding find_message update_rows
find_message-update_rows s c test change [] m keeps h = cc
find_message-update_rows s c test change (o ∷ ms) m keeps h = ground (
  arith,
  find_message-update_rows s c test change ms m keeps,
  (keeps o).same_sender,
  (keeps o).same_client,
)

changed-Holds :
    (text : TextCommand) (id : ℕ) (conversation : ℤ) (seq : ℕ) (test : MessageRow → Bool)
    (change : MessageRow → MessageRow) (m : MessageRow)
    → Advanced m (change m)
    → Holds text id conversation seq m
    → Holds text id conversation seq (if test m then change m else m)
changed-Holds text id conversation seq test change m a h =
    if_elim (Holds text id conversation seq) (test m)
      (λ _. (
        a.same_id ∙ h.0,
        a.same_conversation ∙ h.1,
        a.same_seq ∙ h.2,
        a.same_receiver ∙ h.3,
        a.same_kind ∙ h.4,
        a.same_content ∙ h.5,
      ))
      (λ _. h)

pub Stored-Closed :
    (text : TextCommand) (id : ℕ) (conversation : ℤ) (seq : ℕ)
    → Closed (Stored text id conversation seq)
unfolding append_text
Stored-Closed text id conversation seq = record {
  opens = stored_open;
  seats = λ seats t v. v;
  burns = λ n t v. v;
  appends = λ k d other t e f v. (
    v.0,
    (v.1.0, find_message-append text.sender text.client_message_id t.messages v.1.0 _ v.1.1, v.1.2),
  );
  updates = λ test change t keeps v. (
    v.0,
    (
      (if test v.1.0 then change v.1.0 else v.1.0),
      find_message-update_rows text.sender text.client_message_id test change t.messages v.1.0 keeps
          v.1.1,
      changed-Holds text id conversation seq test change v.1.0 (keeps v.1.0) v.1.2,
    ),
  );
}
  where
    stored_open :
        (o : Option Conversation) (k : ℤ) (kind : ℕ) (business : ℤ) (now : String) (t : Tables)
        → lookup k t.conversations ≡ o
        → Stored text id conversation seq t
        → Stored text id conversation seq (open_missing o k kind business now t)
    stored_open none k kind business now t e v = v
    stored_open (some d) k kind business now t e v = v
