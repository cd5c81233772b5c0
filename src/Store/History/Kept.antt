-- ===== src/Store/History/Kept.antt =====
-- What every transaction keeps: a property of the tables that withstands the single statements withstands
-- every history.
use wim.Prelude.{
  Bool, List, Option, String, [], arith, eqb, false, if_elim, if◌then◌else◌, int_eq, is_empty,
  nat_eq, none, not, pos_part, refl, some, string_eq, ℕ, ℤ, ◌&&◌, ◌+◌, ◌==◌, ◌∷◌, ◌≡◌, ◌≤◌,
}
use wim.Prelude.Map.{lookup}
use wim.Store.{
  Conversation, Ending, GroupMember, Member, MessageRow, Tables, committed, direct_conversation,
  group_conversation, lost_reply, no_session, status_read, undone,
}
use wim.Store.Accept.{
  AcceptResult, TextCommand, accept_direct_text, accept_group_text, append_text, direct_between,
  direct_body, direct_tables, find_message, find_speech, finish_accept, group_among, group_body,
  group_tables, is_member, join_group, join_member, open_conversation, open_missing, same_command,
  store_checked, store_locked, store_text,
}
use wim.Store.History.{Run, Step, acknowledges, directs, groups, here, next, receives}
use wim.Store.Receipts.{
  acknowledge_conversation_message, advance_cursors, advance_status, bad_cursor,
  conversation_update, cursor_of, find_by_id, find_owned, finish_update, has_id, owned_by,
  receipt_status, receiver_update, stamp_conversation, stamp_read, update_message_for_receiver,
  update_rows,
}

-- What a receipt may change of a row: the status grows, and a time of reading stays once it is there.
pub record Advanced (m n : MessageRow) : Type 0 where
  pub same_id : n.message_id ≡ m.message_id
  pub same_sender : n.sender_id ≡ m.sender_id
  pub same_receiver : n.receiver_id ≡ m.receiver_id
  pub same_conversation : n.conversation_id ≡ m.conversation_id
  pub same_seq : n.conversation_seq ≡ m.conversation_seq
  pub same_client : n.client_message_id ≡ m.client_message_id
  pub same_kind : n.kind ≡ m.kind
  pub same_content : n.content ≡ m.content
  pub grows : m.status ≤ n.status
  pub keeps_time :
      status_read ≤ m.status
      → is_empty m.read_date_time ≡ false
      → n.read_date_time ≡ m.read_date_time

advance_status-Advanced :
    (read : Bool) (m : MessageRow) → Advanced m (advance_status (receipt_status read) m)
unfolding advance_status
advance_status-Advanced read m = ground arith

stamp_read-Advanced :
    (read : Bool) (time : String) (m : MessageRow)
    → Advanced m (stamp_read (receipt_status read) time m)
unfolding stamp_read
stamp_read-Advanced read time m = ground arith

stamp_conversation-Advanced :
    (read : Bool) (time : String) (m : MessageRow)
    → Advanced m (stamp_conversation (receipt_status read) time m)
unfolding stamp_conversation
stamp_conversation-Advanced read time m = ground arith

-- A property that the statements keep.
pub record Closed (P : Tables → Type 0) : Type 0 where
  pub opens :
      (o : Option Conversation) (conversation : ℤ) (kind : ℕ) (business : ℤ) (now : String)
      (t : Tables)
      → lookup conversation t.conversations ≡ o
      → P t
      → P (open_missing o conversation kind business now t)
  pub seats : (ms : List Member) (t : Tables) → P t → P (record t { members = ms })
  pub burns : (n : ℕ) (t : Tables) → P t → P (record t { next_message_id = n })
  pub appends :
      (conversation : ℤ) (d : Conversation) (text : TextCommand) (t : Tables)
      → lookup conversation t.conversations ≡ some d
      → find_message text.sender text.client_message_id t.messages ≡ none
      → P t
      → P (append_text conversation d text t)
  pub updates :
      (test : MessageRow → Bool) (change : MessageRow → MessageRow) (t : Tables)
      → ((m : MessageRow) → Advanced m (change m))
      → P t
      → P (record t { messages = update_rows test change t.messages })

module _ (P : Tables → Type 0) (closed : Closed P) where
  join_member_kept :
      (conversation : ℤ) (joined : ℕ) (uid : ℤ) (t : Tables)
      → P t
      → P (join_member conversation joined uid t)
  unfolding join_member
  join_member_kept conversation joined uid t v =
      if_elim P (is_member conversation uid t.members) (λ _. v) (λ _. closed.seats _ t v)

  join_group_kept :
      (conversation : ℤ) (joined : ℕ) (gid : ℤ) (gs : List GroupMember) (t : Tables)
      → P t
      → P (join_group conversation joined gid gs t)
  unfolding join_group
  join_group_kept conversation joined gid [] t v = v
  join_group_kept conversation joined gid (g ∷ gs) t v =
      join_group_kept conversation joined gid gs
        (if g.gid == gid then join_member conversation joined g.uid t else t)
        (if_elim P (g.gid == gid) (λ _. join_member_kept conversation joined g.uid t v) (λ _. v))

  store_checked_kept :
      (conversation : ℤ) (d : Conversation) (text : TextCommand) (recipients : List ℤ)
      (o : Option MessageRow) (before t : Tables)
      → lookup conversation t.conversations ≡ some d
      → find_message text.sender text.client_message_id t.messages ≡ o
      → P before
      → P t
      → P (store_checked conversation d text recipients o before t).0
  store_checked_kept conversation d text recipients none before t e f b v =
      closed.appends conversation d text t e f v
  store_checked_kept conversation d text recipients (some row) before t e f b v =
      if_elim (λ (r : Tables × AcceptResult). P r.0) (same_command conversation text row) (λ _. v)
        (λ _. b)

  store_locked_kept :
      (conversation : ℤ) (text : TextCommand) (recipients : List ℤ) (o : Option Conversation)
      (before t : Tables)
      → lookup conversation t.conversations ≡ o
      → P before
      → P t
      → P (store_locked conversation text recipients o before t).0
  store_locked_kept conversation text recipients none before t e b v = b
  store_locked_kept conversation text recipients (some d) before t e b v =
      store_checked_kept conversation d text recipients
        (find_message text.sender text.client_message_id t.messages) before t e refl b v

  store_text_kept :
      (conversation : ℤ) (text : TextCommand) (recipients : List ℤ) (before t : Tables)
      → P before
      → P t
      → P (store_text conversation text recipients before t).0
  unfolding store_text
  store_text_kept conversation text recipients before t b v =
      store_locked_kept conversation text recipients (lookup conversation t.conversations) before t
        refl b v

  open_conversation_kept :
      (conversation : ℤ) (kind : ℕ) (business : ℤ) (now : String) (t : Tables)
      → P t
      → P (open_conversation conversation kind business now t)
  unfolding open_conversation
  open_conversation_kept conversation kind business now t v =
      closed.opens (lookup conversation t.conversations) conversation kind business now t refl v

  direct_between_kept :
      (o : Option ℤ) (text : TextCommand) (t : Tables) → P t → P (direct_between o text t).0
  direct_between_kept none text t v = v
  direct_between_kept (some conversation) text t v =
      store_text_kept conversation text [] t (direct_tables conversation text t) v (
        join_member_kept conversation 1 text.receiver _ (
          join_member_kept conversation 1 text.sender _ (
            open_conversation_kept conversation direct_conversation conversation text.send_date_time
              t v)))

  group_among_kept :
      (o : Option ℤ) (speech : Option ℕ) (text : TextCommand) (t : Tables)
      → P t
      → P (group_among o speech text t).0
  group_among_kept none speech text t v = v
  group_among_kept (some conversation) none text t v = v
  group_among_kept (some conversation) (some speech) text t v =
      if_elim (λ (r : Tables × AcceptResult). P r.0) (eqb speech 0)
        (λ _. store_text_kept conversation text _ t (group_tables conversation text t) v (
          join_group_kept conversation _ text.receiver _ _ (
            open_conversation_kept conversation group_conversation text.receiver text.send_date_time
              t v)))
        (λ _. v)

  finish_accept_kept :
      (ending : Ending) (r : Tables × AcceptResult) (t : Tables)
      → P r.0
      → P t
      → P (finish_accept ending r t).0
  unfolding finish_accept
  finish_accept_kept committed r t w v = w
  finish_accept_kept lost_reply r t w v = w
  finish_accept_kept no_session r t w v = v
  finish_accept_kept (undone ids) r t w v = closed.burns (t.next_message_id + ids) t v

  receiver_update_kept :
      (o : Option MessageRow) (id receiver : ℤ) (read : Bool) (time : String) (t : Tables)
      → P t
      → P (receiver_update o id receiver (receipt_status read) time t).0
  unfolding advance_status stamp_read
  receiver_update_kept none id receiver read time t v = v
  receiver_update_kept (some m) id receiver read time t v =
      let Q = λ (r : Tables × ℤ). P r.0 in
      if_elim Q (not (m.receiver_id == receiver)) (λ _. v)
        (λ _.
          if_elim Q (is_empty time)
            (λ _.
              closed.updates (owned_by id receiver) (advance_status (receipt_status read)) t
                (advance_status-Advanced read) v)
            (λ _.
              closed.updates (owned_by id receiver) (stamp_read (receipt_status read) time) t
                (stamp_read-Advanced read time) v))

  conversation_update_kept :
      (o : Option MessageRow) (d : Option Conversation) (member : Bool) (id uid conversation : ℤ)
      (seq : ℕ) (read : Bool) (time : String) (t : Tables)
      → P t
      → P (conversation_update o d member id uid conversation seq (receipt_status read) time t).0
  unfolding stamp_conversation
  conversation_update_kept none d member id uid conversation seq read time t v = v
  conversation_update_kept (some m) none member id uid conversation seq read time t v = v
  conversation_update_kept (some m) (some d) member id uid conversation seq read time t v =
      let Q = λ (r : Tables × ℤ). P r.0 in
      let advanced = record t {
        members =
            update_rows (cursor_of conversation uid) (advance_cursors seq (receipt_status read))
              t.members;
      } in
      if_elim Q (not member) (λ _. v)
        (λ _.
          if_elim Q (eqb d.kind direct_conversation && not (m.receiver_id == uid)) (λ _. v)
            (λ _.
              if_elim Q (eqb d.kind direct_conversation)
                (λ _.
                  closed.updates (has_id id) (stamp_conversation (receipt_status read) time)
                    advanced (stamp_conversation-Advanced read time)
                    (closed.seats
                      (update_rows (cursor_of conversation uid)
                        (advance_cursors seq (receipt_status read)) t.members)
                      t v))
                (λ _.
                  closed.seats
                    (update_rows (cursor_of conversation uid)
                      (advance_cursors seq (receipt_status read)) t.members)
                    t v)))

  finish_update_kept :
      (ending : Ending) (r : Tables × ℤ) (t : Tables) → P r.0 → P t → P (finish_update ending r t).0
  unfolding finish_update
  finish_update_kept committed r t w v = w
  finish_update_kept lost_reply r t w v = w
  finish_update_kept no_session r t w v = v
  finish_update_kept (undone ids) r t w v = v

  Step_kept : {t u : Tables} → Step t u → P t → P u
  unfolding accept_direct_text direct_body accept_group_text group_body update_message_for_receiver
      acknowledge_conversation_message
  Step_kept {t} (directs ending text) v =
      finish_accept_kept ending (direct_body text t) t
        (direct_between_kept (t.friends text.sender text.receiver) text t v) v
  Step_kept {t} (groups ending text) v =
      finish_accept_kept ending (group_body text t) t
        (group_among_kept (t.group_info text.receiver)
          (find_speech text.receiver text.sender t.group_members) text t v)
        v
  Step_kept {t} (receives ending id receiver read time) v =
      finish_update_kept ending
        (receiver_update (find_by_id id t.messages) id receiver (receipt_status read) time t) t
        (receiver_update_kept (find_by_id id t.messages) id receiver read time t v) v
  Step_kept {t} (acknowledges ending id uid conversation seq read time) v =
      let o = find_owned id conversation seq t.messages in
      let d = lookup conversation t.conversations in
      let member = is_member conversation uid t.members in
      if_elim (λ (r : Tables × ℤ). P r.0) (bad_cursor id uid conversation seq) (λ _. v)
        (λ _.
          finish_update_kept ending
            (conversation_update o d member id uid conversation (pos_part seq) (receipt_status read)
              time t)
            t (conversation_update_kept o d member id uid conversation (pos_part seq) read time t v)
            v)

  pub Run_kept : {t u : Tables} → Run t u → P t → P u
  Run_kept here v = v
  Run_kept (next r step) v = Step_kept step (Run_kept r v)
