-- ===== src/Store/History/Lifecycle.antt =====
-- A stored message is never lost or rewritten: receipts only move it forward.
use wim.Prelude.{
  Bool, List, Option, String, [], ap, arith, if_elim, if◌then◌else◌, int_eq, is_empty, nat_eq, none,
  some, string_eq, ℕ, ℤ, ◌++◌, ◌∙◌, ◌∷◌, ◌≡◌,
}
use wim.Prelude.Map.{lookup}
use wim.Store.{Conversation, MessageRow, Tables}
use wim.Store.Accept.{append_text, open_missing}
use wim.Store.History.{Run}
use wim.Store.History.Kept.{Advanced, Closed, Run_kept}
use wim.Store.Receipts.{update_rows}

-- The rows of the first list stand at the front of the second, each moved forward by receipts.
abbrev pub Extends : List MessageRow → List MessageRow → Type 0
Extends [] ns = Unit
Extends (m ∷ ms) [] = ⊥
Extends (m ∷ ms) (n ∷ ns) = Advanced m n × Extends ms ns

Advanced-refl : (m : MessageRow) → Advanced m m
Advanced-refl m = ground arith

Advanced-trans : (m n o : MessageRow) → Advanced m n → Advanced n o → Advanced m o
Advanced-trans m n o p q = record {
  same_id = q.same_id ∙ p.same_id;
  same_sender = q.same_sender ∙ p.same_sender;
  same_receiver = q.same_receiver ∙ p.same_receiver;
  same_conversation = q.same_conversation ∙ p.same_conversation;
  same_seq = q.same_seq ∙ p.same_seq;
  same_client = q.same_client ∙ p.same_client;
  same_kind = q.same_kind ∙ p.same_kind;
  same_content = q.same_content ∙ p.same_content;
  grows = omega (arith, p.grows, q.grows);
  keeps_time = λ h e.
      q.keeps_time (omega (arith, h, p.grows)) (ap is_empty (p.keeps_time h e) ∙ e)
      ∙ p.keeps_time h e;
}

Extends-refl : (ms : List MessageRow) → Extends ms ms
Extends-refl [] = tt
Extends-refl (m ∷ ms) = (Advanced-refl m, Extends-refl ms)

Extends-append : (ms ns os : List MessageRow) → Extends ms ns → Extends ms (ns ++ os)
Extends-append [] ns os h = tt
Extends-append (m ∷ ms) [] os h = absurd h
Extends-append (m ∷ ms) (n ∷ ns) os h = (h.0, Extends-append ms ns os h.1)

changed-Advanced :
    (m n : MessageRow) (test : MessageRow → Bool) (change : MessageRow → MessageRow)
    → ((o : MessageRow) → Advanced o (change o))
    → Advanced m n
    → Advanced m (if test n then change n else n)
changed-Advanced m n test change keeps h =
    if_elim (Advanced m) (test n) (λ _. Advanced-trans m n (change n) h (keeps n)) (λ _. h)

Extends-update_rows :
    (ms ns : List MessageRow) (test : MessageRow → Bool) (change : MessageRow → MessageRow)
    → ((m : MessageRow) → Advanced m (change m))
    → Extends ms ns
    → Extends ms (update_rows test change ns)
unfolding update_rows
Extends-update_rows [] ns test change keeps h = tt
Extends-update_rows (m ∷ ms) [] test change keeps h = absurd h
Extends-update_rows (m ∷ ms) (n ∷ ns) test change keeps h =
    (changed-Advanced m n test change keeps h.0, Extends-update_rows ms ns test change keeps h.1)

Extends-Closed : (ms : List MessageRow) → Closed (λ t. Extends ms t.messages)
unfolding append_text
Extends-Closed ms = record {
  opens = extends_open;
  seats = λ seats t v. v;
  burns = λ n t v. v;
  appends = λ conversation d text t e f v. Extends-append ms t.messages _ v;
  updates = λ test change t keeps v. Extends-update_rows ms t.messages test change keeps v;
}
  where
    extends_open :
        (o : Option Conversation) (conversation : ℤ) (kind : ℕ) (business : ℤ) (now : String)
        (t : Tables)
        → lookup conversation t.conversations ≡ o
        → Extends ms t.messages
        → Extends ms (open_missing o conversation kind business now t).messages
    extends_open none conversation kind business now t e v = v
    extends_open (some d) conversation kind business now t e v = v

-- Through every history of accepted texts and receipts, the stored messages stay at the front of the table
-- with their ids, sender, receiver, conversation, sequence number, kind and content; their status never
-- decreases; and once a message is read with a time of reading, that time stays.
pub message_lifecycle : {t u : Tables} → Run t u → Extends t.messages u.messages
message_lifecycle {t} r =
    Run_kept (λ u. Extends t.messages u.messages) (Extends-Closed t.messages) r
      (Extends-refl t.messages)
