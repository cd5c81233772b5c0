-- ===== src/Store/Sync/Pages.antt =====
-- Page after page: the client asks for the next page until there is no more
-- (client/src/app/AppController.cc, HandleGatewayResponse), and has then seen every message.
use wim.Prelude.{
  Bool-cases, List, Option, [], ap, arith, drop, if◌then◌else◌, inl, inr, int_eq, is_positive,
  length, length-drop, length-take, ltb, ltb→lt, max, nat_eq, negsuc, none, pos, refl, some,
  string_eq, suc, take, take-append-drop, true, zero, ℕ, ℤ, ◌++◌, ◌+◌, ◌-◌, ◌<◌, ◌∙◌, ◌∷◌, ◌≡◌, ◌≤◌,
}
use wim.Gateway.Session.Reliable.{left}
use wim.Prelude.Map.{lookup}
use wim.Store.{Conversation, Member, MessageRow, Tables}
use wim.Store.History.Sequence.{seqs, upto}
use wim.Store.Sync.{
  cut_page, find_member, last_seq, left_or, page_size, rows_between, sync_conversation,
}
use wim.Store.Sync.Rows.{Above, order_by_seq-rows_between, rows_between_sorted}

abbrev pub prepend : List MessageRow → Option (List MessageRow) → Option (List MessageRow)
prepend page none = none
prepend page (some rest) = some (page ++ rest)

-- The messages of the pages, with fuel for the number of pages; none if the client would ask for more.
unfoldable pub pull_pages : ℕ → ℤ → ℤ → ℤ → ℕ → Tables → Option (List MessageRow)
pull_pages zero uid conversation limit after t = none
pull_pages (suc fuel) uid conversation limit after t =
    let page = sync_conversation true uid conversation (pos after) limit t in
    let rest = pull_pages fuel uid conversation limit page.next_seq t in
    if page.has_more then prepend page.messages rest else some page.messages

-- The rows that come after a number, among rows in ascending order.
abbrev beyond : ℕ → List MessageRow → List MessageRow
beyond s [] = []
beyond s (m ∷ ms) = let rest = beyond s ms in if ltb s m.conversation_seq then m ∷ rest else rest

beyond-Above : (lo s : ℕ) (ms : List MessageRow) → s ≤ lo → Above lo ms → beyond s ms ≡ ms
beyond-Above lo s [] h a = refl
beyond-Above lo s (m ∷ ms) h a =
    ground (arith, a.0, beyond-Above m.conversation_seq s ms (omega (arith, h, a.0)) a.1)

last_seq-le : (n lo : ℕ) (ms : List MessageRow) → Above lo ms → lo ≤ last_seq lo (take n ms)
unfolding last_seq
last_seq-le zero lo ms a = omega arith
last_seq-le (suc n) lo [] a = omega arith
last_seq-le (suc n) lo (m ∷ ms) a = omega (arith, a.0, last_seq-le n m.conversation_seq ms a.1)

beyond-page :
    (n lo : ℕ) (ms : List MessageRow)
    → Above lo ms
    → beyond (last_seq lo (take n ms)) ms ≡ drop n ms
unfolding last_seq
beyond-page zero lo ms a = beyond-Above lo lo ms (omega arith) a
beyond-page (suc n) lo [] a = refl
beyond-page (suc n) lo (m ∷ ms) a =
    ground (arith, last_seq-le n m.conversation_seq ms a.1, beyond-page n m.conversation_seq ms a.1)

rows_between-beyond_later :
    (k : ℤ) (after s left : ℕ) (ms : List MessageRow)
    → after ≤ s
    → rows_between k s left ms ≡ beyond s (rows_between k after left ms)
unfolding rows_between
rows_between-beyond_later k after s left [] h = refl
rows_between-beyond_later k after s left (m ∷ ms) h =
    ground (arith, h, rows_between-beyond_later k after s left ms h)

page_size-pos : (limit : ℤ) → 0 < page_size limit
unfolding page_size
page_size-pos (pos zero) = omega arith
page_size-pos (pos (suc n)) = omega arith
page_size-pos (negsuc n) = omega arith

has_more-length :
    (n : ℕ) (rows : List MessageRow) → ltb n (length (take (n + 1) rows)) ≡ ltb n (length rows)
has_more-length n rows = ground (arith, length-take (n + 1) rows)

take_all : (n : ℕ) (rows : List MessageRow) → length rows ≤ n → take n rows ≡ rows
take_all zero [] h = refl
take_all zero (m ∷ rows) h = absurd (omega (arith, h))
take_all (suc n) [] h = refl
take_all (suc n) (m ∷ rows) h = ap (◌∷◌ m) (take_all n rows (omega (arith, h)))

module _ (uid conversation limit : ℤ) (t : Tables) (c : Conversation) (m : Member)
    (is_user : is_positive uid ≡ true) (is_conversation : is_positive conversation ≡ true)
    (there : lookup conversation t.conversations ≡ some c)
    (seated : find_member conversation uid t.members ≡ some m)
    (dense : seqs conversation t.messages ≡ upto c.latest_seq) where
  -- The messages that the member may see beyond a cursor.
  abbrev pub visible : ℕ → List MessageRow
  visible after =
      rows_between conversation (max after (m.joined_seq - 1)) (left_or c.latest_seq m.left_seq)
        t.messages

  sync_page :
      (after : ℕ)
      → sync_conversation true uid conversation (pos after) limit t
        ≡ cut_page c (max after (m.joined_seq - 1)) (page_size limit) (visible after)
  unfolding sync_conversation
  sync_page after =
      let from = max after (m.joined_seq - 1) in
      rw
        (
          is_user,
          is_conversation,
          there,
          seated,
          order_by_seq-rows_between conversation from (left_or c.latest_seq m.left_seq) c.latest_seq
              t.messages dense,
        )
        refl

  sorted : (after : ℕ) → Above (max after (m.joined_seq - 1)) (visible after)
  sorted after =
      rows_between_sorted conversation (max after (m.joined_seq - 1))
        (left_or c.latest_seq m.left_seq) c.latest_seq t.messages dense

  -- The cursor that a page hands on leaves exactly the rows behind the page.
  visible_next :
      (n after : ℕ)
      → visible (last_seq (max after (m.joined_seq - 1)) (take n (visible after)))
        ≡ drop n (visible after)
  visible_next n after =
      let from = max after (m.joined_seq - 1) in
      let cursor = last_seq from (take n (visible after)) in
      let left = left_or c.latest_seq m.left_seq in
      let later : from ≤ cursor = last_seq-le n from (visible after) (sorted after) in
      let same : max cursor (m.joined_seq - 1) ≡ cursor = omega (arith, later) in
      ap (λ x. rows_between conversation x left t.messages) same
      ∙ rows_between-beyond_later conversation from cursor left t.messages later
      ∙ beyond-page n from (visible after) (sorted after)

  one_round :
      (fuel after : ℕ)
      → length (visible after) < suc fuel
      → ((later : ℕ)
          → length (visible later) < fuel
          → pull_pages fuel uid conversation limit later t ≡ some (visible later))
      → pull_pages (suc fuel) uid conversation limit after t ≡ some (visible after)
  unfolding pull_pages cut_page
  one_round fuel after h rest =
      let n = page_size limit in
      let rows = visible after in
      let cursor = last_seq (max after (m.joined_seq - 1)) (take n rows) in
      let back = visible_next n after in
      elim (Bool-cases (ltb n (length rows))) [
        | inl more ↦
            let short : length (visible cursor) < fuel = omega (
              arith,
              h,
              ap length back,
              length-drop n rows,
              page_size-pos limit,
              ltb→lt n (length rows) more,
            ) in
            rw (sync_page after, has_more-length n rows, more)
              (ap (prepend (take n rows)) (rest cursor short ∙ ap some back)
                ∙ ap some (take-append-drop n rows))
        | inr last ↦
            rw (sync_page after, has_more-length n rows, last)
              (ap some (take_all n rows (ground (arith, last))))
      ]

  -- For a member of a conversation whose messages are numbered without gaps: asking for page after page,
  -- each from the cursor that the page before handed on, comes to a page that says that there is no more,
  -- in at most one page more than there are messages, and the pages together are exactly the messages that the member
  -- may see beyond the first cursor, each once and in ascending order of their numbers.
  pub pull_pages-visible :
      (fuel after : ℕ)
      → length (visible after) < fuel
      → (pull_pages fuel uid conversation limit after t ≡ some (visible after))
        × Above (max after (m.joined_seq - 1)) (visible after)
  pull_pages-visible fuel after h = (rounds fuel after h, sorted after)
    where
      rounds :
          (fuel after : ℕ)
          → length (visible after) < fuel
          → pull_pages fuel uid conversation limit after t ≡ some (visible after)
      rounds zero after h = absurd (omega (arith, h))
      rounds (suc fuel) after h = one_round fuel after h (rounds fuel)
