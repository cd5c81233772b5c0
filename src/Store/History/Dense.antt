-- ===== src/Store/History/Dense.antt =====
-- The invariant of Store/History/Sequence.antt through every history.
use wim.Prelude.{
  Bool, List, String, [], arith, int_eq, nat_eq, refl, string_eq, ℤ, ◌∙◌, ◌∷◌, ◌≡◌, ◌≤◌,
}
use wim.Prelude.Map.{lookup}
use wim.Store.{MessageRow, Tables}
use wim.Store.Accept.{latest_of}
use wim.Store.History.{Run}
use wim.Store.History.Kept.{Advanced, Closed, Run_kept}
use wim.Store.History.Sequence.{Inv, append_text-Inv, copies, open_missing-Inv, seqs, upto}
use wim.Store.Receipts.{update_rows}

seqs-update_rows :
    (k : ℤ) (test : MessageRow → Bool) (change : MessageRow → MessageRow) (ms : List MessageRow)
    → ((m : MessageRow) → Advanced m (change m))
    → seqs k (update_rows test change ms) ≡ seqs k ms
unfolding update_rows
seqs-update_rows k test change [] keeps = refl
seqs-update_rows k test change (m ∷ ms) keeps = ground (
  arith,
  seqs-update_rows k test change ms keeps,
  (keeps m).same_conversation,
  (keeps m).same_seq,
)

copies-update_rows :
    (s : ℤ) (c : String) (test : MessageRow → Bool) (change : MessageRow → MessageRow)
    (ms : List MessageRow)
    → ((m : MessageRow) → Advanced m (change m))
    → copies s c (update_rows test change ms) ≡ copies s c ms
unfolding update_rows
copies-update_rows s c test change [] keeps = refl
copies-update_rows s c test change (m ∷ ms) keeps = ground (
  arith,
  copies-update_rows s c test change ms keeps,
  (keeps m).same_sender,
  (keeps m).same_client,
)

Inv-Closed : (k s : ℤ) (c : String) → Closed (Inv k s c)
Inv-Closed k s c = record {
  opens = open_missing-Inv k s c;
  seats = λ ms t v. v;
  burns = λ n t v. v;
  appends = append_text-Inv k s c;
  updates = λ test change t keeps v. (
    seqs-update_rows k test change t.messages keeps ∙ v.0,
    omega (arith, copies-update_rows s c test change t.messages keeps, v.1),
  );
}

-- From tables without messages and conversations, through every history of accepted texts and receipts, with
-- transactions that commit, are undone or lose their reply: the messages of a conversation carry the
-- sequence numbers 1, 2, …, latestSeq in the order of their insertion, without a gap or a repetition;
-- and no two messages carry the same sender and client message id.
pub text_history :
    (k s : ℤ) (c : String) {t u : Tables}
    → t.messages ≡ []
    → t.conversations ≡ []
    → Run t u
    → (seqs k u.messages ≡ upto (latest_of (lookup k u.conversations)))
      × (copies s c u.messages ≤ 1)
unfolding lookup
text_history k s c {t} e f r =
    Run_kept (Inv k s c) (Inv-Closed k s c) r (rw (e, f) (refl, omega arith))
