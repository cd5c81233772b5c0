-- ===== src/Gateway/Session/Queue.antt =====
-- The write side of a session: nothing is lost, overtaken or written twice, and the counter is right.
use wim.Prelude.{
  Bool, Bool-cases, List, String, [], ap, append-nil, append_assoc, arith, false, if_elim, inl, inr,
  length, length-append, ltb, refl, sym, true, ℕ, ℤ, ◌&&◌, ◌++◌, ◌+◌, ◌-◌, ◌<◌, ◌∙◌, ◌∷◌, ◌≡◌, ◌≢◌,
  ◌≤◌,
}
use wim.Gateway.Session.{
  GatewaySession, Task, WriteLoop, absent_loop, awaiting_loop, close, close_in_context, close_task,
  continue_loop, is_drained, keep_reliable, leave_loop, max_queued_writes, new_session, on_written,
  post, push_frame, run_first, run_task, send_raw, spawned_loop, tail, write_first,
}
use wim.Wire.{encode_frame}

-- The frames that wait in the strand.
abbrev pub pushes : List Task → List (List ℕ)
pushes [] = []
pushes (push_frame f ∷ rest) = f ∷ pushes rest
pushes (keep_reliable packet protocol_id ack_seq ∷ rest) = pushes rest
pushes (close_task ∷ rest) = pushes rest

-- The part of the queue that has not been handed to async_write.
abbrev pub unwritten : WriteLoop → List (List ℕ) → List (List ℕ)
unwritten awaiting_loop [] = []
unwritten awaiting_loop (f ∷ fs) = fs
unwritten _ fs = fs

abbrev Counted : GatewaySession → Type 0
Counted s =
    (s.queued_writes ≡ length (pushes s.posted) + length s.write_queue)
    × (s.queued_writes ≤ max_queued_writes)

abbrev InLoop : GatewaySession → Type 0
InLoop s =
    (s.write_active ≡ false → s.loop ≡ absent_loop)
    × (s.write_active ≡ true → s.loop ≢ absent_loop)
    × (s.loop ≡ awaiting_loop → 0 < length s.write_queue)
    × (s.write_active ≡ false → s.closed ≡ false → s.write_queue ≡ [])

abbrev InOrder : GatewaySession → Type 0
InOrder s =
    (s.closed ≡ false
      → s.accepted ≡ s.written ++ (unwritten s.loop s.write_queue ++ pushes s.posted))
    × ((lost : List (List ℕ)) × (s.accepted ≡ s.written ++ lost))

abbrev pub Inv : GatewaySession → Type 0
Inv s = Counted s × InLoop s × InOrder s

pushes-append : (a b : List Task) → pushes (a ++ b) ≡ pushes a ++ pushes b
pushes-append [] b = refl
pushes-append (push_frame f ∷ a) b = ap (◌∷◌ f) (pushes-append a b)
pushes-append (keep_reliable p i n ∷ a) b = pushes-append a b
pushes-append (close_task ∷ a) b = pushes-append a b

pub new_session-Inv : (id : String) (now : ℕ) → Inv (new_session id now)
unfolding new_session
new_session-Inv id now = ground arith

pub close-Inv : (s : GatewaySession) → Inv s → Inv (close s)
unfolding close
close-Inv s v = rw (pushes-append s.posted (close_task ∷ []), append-nil (pushes s.posted)) v

accept-Inv :
    (s : GatewaySession) (f : List ℕ)
    → ltb max_queued_writes (s.queued_writes + 1) ≡ false
    → Inv s
    → Inv (
        post
          (push_frame f)
          (record s { queued_writes = s.queued_writes + 1; accepted = s.accepted ++ (f ∷ []) }))
accept-Inv s f room v = (
  ground
      (arith, pushes-append s.posted (push_frame f ∷ []), length-append (pushes s.posted) (f ∷ [])),
  v.1,
  (
    (λ h.
        ap (λ x. x ++ (f ∷ [])) (v.2.0 h)
        ∙ append_assoc s.written (unwritten s.loop s.write_queue ++ pushes s.posted) (f ∷ [])
        ∙ ap (λ x. s.written ++ x)
            (append_assoc (unwritten s.loop s.write_queue) (pushes s.posted) (f ∷ [])
              ∙ ap (λ x. unwritten s.loop s.write_queue ++ x)
                  (sym (pushes-append s.posted (push_frame f ∷ []))))),
    (
      v.2.1.0 ++ (f ∷ []),
      ap (λ x. x ++ (f ∷ [])) v.2.1.1 ∙ append_assoc s.written v.2.1.0 (f ∷ []),
    ),
  ),
)

pub send_raw-Inv :
    (packet : List ℕ) (id : ℕ) (s : GatewaySession) → Inv s → Inv (send_raw packet id s).0
unfolding send_raw
send_raw-Inv packet id s v =
    if_elim (λ (r : GatewaySession × Bool). Inv r.0) s.closed (λ _. v)
      (λ live.
        if_elim (λ (r : GatewaySession × Bool). Inv r.0)
          (ltb max_queued_writes (s.queued_writes + 1)) (λ full. close-Inv s v)
          (λ room. accept-Inv s (encode_frame id packet) room v))

pub close_in_context-Inv : (s : GatewaySession) → Inv s → Inv (close_in_context s)
unfolding close_in_context
close_in_context-Inv s v =
    if_elim Inv s.closed (λ _. v)
      (λ live. (
        v.0,
        (v.1.0, v.1.1, v.1.2, λ a h. absurd (true-false h)),
        ((λ h. absurd (true-false h)), v.2.1),
      ))
  where
    true-false : true ≢ false
    true-false e = cc

unwritten-append :
    (w : WriteLoop) (q : List (List ℕ)) (f : List ℕ)
    → (w ≡ awaiting_loop → 0 < length q)
    → unwritten w (q ++ (f ∷ [])) ≡ unwritten w q ++ (f ∷ [])
unwritten-append awaiting_loop [] f h = absurd (omega (arith, h refl))
unwritten-append awaiting_loop (g ∷ q) f h = refl
unwritten-append absent_loop q f h = refl
unwritten-append spawned_loop q f h = refl

-- A frame that moves from the strand to the queue.
abbrev moved : List ℕ → List Task → Bool → WriteLoop → GatewaySession → GatewaySession
moved f rest b w s = record s {
  posted = rest;
  write_queue = s.write_queue ++ (f ∷ []);
  write_active = b;
  loop = w;
}

moved-Inv :
    (f : List ℕ) (rest : List Task) (s : GatewaySession) (b : Bool) (w : WriteLoop)
    → s.posted ≡ push_frame f ∷ rest
    → Inv s
    → b ≡ true
    → w ≢ absent_loop
    → unwritten w s.write_queue ≡ unwritten s.loop s.write_queue
    → (w ≡ awaiting_loop → 0 < length s.write_queue)
    → Inv (moved f rest b w s)
moved-Inv f rest s b w e v on live same q = (
  ground (arith, ap pushes e, length-append s.write_queue (f ∷ [])),
  ground (arith, length-append s.write_queue (f ∷ [])),
  (
    (λ h.
        v.2.0 h
        ∙ rw
            (
              ap pushes e,
              unwritten-append w s.write_queue f q,
              same,
              append_assoc (unwritten s.loop s.write_queue) (f ∷ []) (pushes rest),
            )
            refl),
    v.2.1,
  ),
)

dropped-Inv :
    (f : List ℕ) (rest : List Task) (s : GatewaySession)
    → s.posted ≡ push_frame f ∷ rest
    → Inv s
    → s.closed ≡ true
    → Inv (record s { queued_writes = s.queued_writes - 1; posted = rest })
dropped-Inv f rest s e v gone = (ground (arith, ap pushes e), v.1, ((λ h. absurd (cc)), v.2.1))

spawned-unwritten :
    (w : WriteLoop) (q : List (List ℕ)) → w ≡ absent_loop → unwritten spawned_loop q ≡ unwritten w q
spawned-unwritten w q e = rw e refl

run_task-Inv :
    (t : Task) (rest : List Task) (s : GatewaySession)
    → s.posted ≡ t ∷ rest
    → Inv s
    → Inv (run_task t (record s { posted = rest }))
unfolding run_task
run_task-Inv (push_frame f) rest s e v = if_elim Inv s.closed (dropped-Inv f rest s e v) (λ live.
    if_elim Inv s.write_active
      (λ on. moved-Inv f rest s s.write_active s.loop e v on (v.1.1 on) refl v.1.2)
      (λ off.
        moved-Inv f rest s true spawned_loop e v refl (λ h. cc)
          (spawned-unwritten s.loop s.write_queue (v.1.0 off)) (λ h. cc)))
run_task-Inv (keep_reliable p i n) rest s e v = rw (sym (ap pushes e)) v
run_task-Inv close_task rest s e v =
    close_in_context-Inv (record s { posted = rest }) (rw (sym (ap pushes e)) v)

pub run_first-Inv :
    (q : List Task) (s : GatewaySession) → s.posted ≡ q → Inv s → Inv (run_first q s)
run_first-Inv [] s e v = v
run_first-Inv (t ∷ rest) s e v = run_task-Inv t rest s e v

not_awaiting : (w : WriteLoop) (q : List (List ℕ)) → w ≢ awaiting_loop → unwritten w q ≡ q
not_awaiting awaiting_loop q h = absurd (h refl)
not_awaiting absent_loop q h = refl
not_awaiting spawned_loop q h = refl

leave_loop-Inv :
    (s : GatewaySession)
    → Inv s
    → s.loop ≢ awaiting_loop
    → (s.closed ≡ false → s.write_queue ≡ [])
    → Inv (leave_loop s)
unfolding leave_loop
leave_loop-Inv s v a b =
    if_elim Inv (s.close_after_write && is_drained s.write_queue)
      (λ _. close_in_context-Inv out left) (λ _. left)
  where
    out : GatewaySession
    out = record s { write_active = false; loop = absent_loop }

    left : Inv out
    left = (
      v.0,
      ((λ h. refl), (λ h. cc), (λ h. cc), λ h. b),
      ((λ h. v.2.0 h ∙ rw (not_awaiting s.loop s.write_queue a) refl), v.2.1),
    )

start_write-Inv :
    (f : List ℕ) (q : List (List ℕ)) (s : GatewaySession)
    → s.write_queue ≡ f ∷ q
    → Inv s
    → s.loop ≢ awaiting_loop
    → s.write_active ≡ true
    → s.closed ≡ false
    → Inv (record s { loop = awaiting_loop; written = s.written ++ (f ∷ []) })
start_write-Inv f q s e v a b live =
    (v.0, ground (arith, ap length e), ((λ h. order), (q ++ pushes s.posted, before)))
  where
    before : s.accepted ≡ (s.written ++ (f ∷ [])) ++ (q ++ pushes s.posted)
    before =
        v.2.0 live
        ∙ rw
            (
              not_awaiting s.loop s.write_queue a,
              e,
              append_assoc s.written (f ∷ []) (q ++ pushes s.posted),
            )
            refl

    order :
        s.accepted
        ≡ (s.written ++ (f ∷ [])) ++ (unwritten awaiting_loop s.write_queue ++ pushes s.posted)
    order = before ∙ rw e refl

pub write_first-Inv :
    (q : List (List ℕ)) (s : GatewaySession)
    → s.write_queue ≡ q
    → Inv s
    → s.loop ≢ awaiting_loop
    → s.write_active ≡ true
    → Inv (write_first q s)
write_first-Inv [] s e v a b = leave_loop-Inv s v a (λ _. e)
write_first-Inv (f ∷ q) s e v a b =
    if_elim Inv s.closed (λ gone. leave_loop-Inv s v a (λ live. absurd (cc)))
      (start_write-Inv f q s e v a b)

unwritten-tail : (q : List (List ℕ)) → unwritten awaiting_loop q ≡ tail q
unwritten-tail [] = refl
unwritten-tail (f ∷ q) = refl

length-tail : (q : List (List ℕ)) → 0 < length q → length (tail q) + 1 ≡ length q
length-tail [] h = omega (arith, h)
length-tail (f ∷ q) h = omega arith

close_in_context-closed : (s : GatewaySession) → (close_in_context s).closed ≡ true
unfolding close_in_context
close_in_context-closed s =
    if_elim (λ (r : GatewaySession). r.closed ≡ true) s.closed (λ h. h) (λ h. refl)

close_in_context-loop : (s : GatewaySession) → (close_in_context s).loop ≡ s.loop
unfolding close_in_context
close_in_context-loop s =
    if_elim (λ (r : GatewaySession). r.loop ≡ s.loop) s.closed (λ h. refl) (λ h. refl)

pub on_written-Inv :
    (ok : Bool) (s : GatewaySession) → s.loop ≡ awaiting_loop → Inv s → Inv (on_written ok s)
unfolding on_written continue_loop
on_written-Inv ok s e v =
    if_elim Inv ok (λ _. write_first-Inv (tail s.write_queue) popped refl popped-Inv (λ h. cc) on)
      (λ _.
        leave_loop-Inv (close_in_context popped) (close_in_context-Inv popped popped-Inv)
          (λ h. cc (sym (close_in_context-loop popped) ∙ h))
          (λ h. absurd (cc (sym (close_in_context-closed popped) ∙ h))))
  where
    popped : GatewaySession
    popped = record s {
      write_queue = tail s.write_queue;
      queued_writes = s.queued_writes - 1;
      loop = spawned_loop;
    }

    on : s.write_active ≡ true
    on = elim (Bool-cases s.write_active) [ inl h ↦ h | inr h ↦ absurd (cc (sym e ∙ v.1.0 h)) ]

    popped-Inv : Inv popped
    popped-Inv = (
      ground (arith, length-tail s.write_queue (v.1.2 e)),
      ground (arith, on),
      ((λ h. v.2.0 h ∙ rw (e, unwritten-tail s.write_queue) refl), v.2.1),
    )

pub post_reliable-Inv :
    (packet : List ℕ) (id : ℕ) (seq : ℤ) (s : GatewaySession)
    → Inv s
    → Inv (post (keep_reliable packet id seq) s)
post_reliable-Inv packet id seq s v =
    rw (pushes-append s.posted (keep_reliable packet id seq ∷ []), append-nil (pushes s.posted)) v
