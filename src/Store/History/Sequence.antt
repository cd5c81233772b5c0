-- ===== src/Store/History/Sequence.antt =====
-- The sequence numbers of a conversation have no gap and no repetition, and a client's message id is
-- stored once for its sender.
use wim.Prelude.{
  ==_cases, List, Option, String, [], ap, append-nil, arith, false, if◌then◌else◌, inl, inr, int_eq,
  nat_eq, none, refl, some, string_eq, suc, sym, true, zero, ℕ, ℤ, ◌&&◌, ◌++◌, ◌+◌, ◌==◌, ◌∙◌, ◌∷◌,
  ◌≡◌, ◌≢◌, ◌≤◌, ◌⊎◌,
}
use wim.Prelude.Map.{insert, lookup, lookup-insert}
use wim.Store.{Conversation, MessageRow, Tables}
use wim.Store.Accept.{TextCommand, append_text, find_message, latest_of, new_row, open_missing}

-- The sequence numbers of the rows of one conversation, in the order of insertion.
abbrev pub seqs : ℤ → List MessageRow → List ℕ
seqs k [] = []
seqs k (m ∷ ms) =
    let rest = seqs k ms in if m.conversation_id == k then m.conversation_seq ∷ rest else rest

-- 1, 2, …, n
abbrev pub upto : ℕ → List ℕ
upto zero = []
upto (suc n) = upto n ++ (suc n ∷ [])

-- How many rows carry a sender's client message id.
abbrev pub copies : ℤ → String → List MessageRow → ℕ
copies sender client [] = 0
copies sender client (m ∷ ms) =
    let rest = copies sender client ms in
    if m.sender_id == sender && m.client_message_id == client then rest + 1 else rest

upto-next : (n : ℕ) → upto (n + 1) ≡ upto n ++ ((n + 1) ∷ [])
upto-next n = rw (succ n) refl
  where
    succ : (n : ℕ) → n + 1 ≡ suc n
    succ n = omega arith

seqs-append :
    (k : ℤ) (ms : List MessageRow) (m : MessageRow)
    → seqs k (ms ++ (m ∷ []))
      ≡ seqs k ms ++ (if m.conversation_id == k then m.conversation_seq ∷ [] else [])
seqs-append k [] m = ground arith
seqs-append k (n ∷ ms) m = ground (arith, seqs-append k ms m)

copies-append :
    (s : ℤ) (c : String) (ms : List MessageRow) (m : MessageRow)
    → copies s c (ms ++ (m ∷ []))
      ≡ copies s c ms + (if m.sender_id == s && m.client_message_id == c then 1 else 0)
copies-append s c [] m = ground arith
copies-append s c (n ∷ ms) m = ground (arith, copies-append s c ms m)

copies-absent :
    (s : ℤ) (c : String) (ms : List MessageRow) → find_message s c ms ≡ none → copies s c ms ≡ 0
unfolding find_message
copies-absent s c [] h = refl
copies-absent s c (m ∷ ms) h = ground (arith, copies-absent s c ms)

abbrev pub Inv : ℤ → ℤ → String → Tables → Type 0
Inv k s c t =
    (seqs k t.messages ≡ upto (latest_of (lookup k t.conversations))) × (copies s c t.messages ≤ 1)

module _ (k s : ℤ) (c : String) where
  pub open_missing-Inv :
      (o : Option Conversation) (conversation : ℤ) (kind : ℕ) (business : ℤ) (now : String)
      (t : Tables)
      → lookup conversation t.conversations ≡ o
      → Inv k s c t
      → Inv k s c (open_missing o conversation kind business now t)
  open_missing-Inv (some d) conversation kind business now t e v = v
  open_missing-Inv none conversation kind business now t e v =
      (v.0 ∙ ap upto (same_latest (lookup k t.conversations) refl), v.1)
    where
      fresh : Conversation
      fresh = record { kind = kind; business_id = business; latest_seq = 0; create_time = now }

      same_latest :
          (o : Option Conversation)
          → lookup k t.conversations ≡ o
          → latest_of o ≡ latest_of (lookup k (insert conversation fresh t.conversations))
      same_latest o f = elim (==_cases conversation k) [
        | inl (hit, same) ↦
            rw (lookup-insert conversation k fresh t.conversations, hit)
              (ap latest_of (sym f ∙ ap (λ x. lookup x t.conversations) (sym same) ∙ e))
        | inr (miss, other) ↦
            rw (lookup-insert conversation k fresh t.conversations, miss) (ap latest_of (sym f))
      ]

  pub append_text-Inv :
      (conversation : ℤ) (d : Conversation) (text : TextCommand) (t : Tables)
      → lookup conversation t.conversations ≡ some d
      → find_message text.sender text.client_message_id t.messages ≡ none
      → Inv k s c t
      → Inv k s c (append_text conversation d text t)
  unfolding append_text
  append_text-Inv conversation d text t e absent v = (
    seqs-append k t.messages row ∙ dense (==_cases conversation k),
    omega (arith, copies-append s c t.messages row, once),
  )
    where
      row : MessageRow
      row = new_row conversation (d.latest_seq + 1) t.next_message_id text

      grown : Conversation
      grown = record d { latest_seq = d.latest_seq + 1 }

      dense :
          (((conversation == k) ≡ true) × (conversation ≡ k))
            ⊎ (((conversation == k) ≡ false) × (conversation ≢ k))
          → seqs k t.messages ++ (if conversation == k then (d.latest_seq + 1) ∷ [] else [])
            ≡ upto (latest_of (lookup k (insert conversation grown t.conversations)))
      dense (inl (hit, same)) =
          rw (lookup-insert conversation k grown t.conversations, hit)
            (ap (λ x. x ++ ((d.latest_seq + 1) ∷ []))
                (v.0
                  ∙ ap (λ x. upto (latest_of x))
                      (ap (λ x. lookup x t.conversations) (sym same) ∙ e))
              ∙ sym (upto-next d.latest_seq))
      dense (inr (miss, other)) =
          rw (lookup-insert conversation k grown t.conversations, miss)
            (append-nil (seqs k t.messages) ∙ v.0)

      once :
          copies s c t.messages + (if text.sender == s && text.client_message_id == c then 1 else 0)
          ≤ 1
      once = elim (==_cases text.sender s) [
        | inr (miss, other) ↦ rw miss (omega (arith, v.1))
        | inl (hit, same) ↦ elim (==_cases text.client_message_id c) [
          | inr (miss', other') ↦ rw (hit, miss') (omega (arith, v.1))
          | inl (hit', same') ↦
              rw (hit, hit')
                (omega (
                  arith,
                  copies-absent s c t.messages (
                      ap (λ x. find_message x c t.messages) (sym same)
                      ∙ ap (λ x. find_message text.sender x t.messages) (sym same')
                      ∙ absent),
                ))
        ]
      ]
