-- ===== src/Gateway/Link/Writes.antt =====
-- The write side of a link: frames leave in the order of `Enqueue`, one write at a time.
use wim.Prelude.{
  Bool, Bool-cases, List, String, [], ap, append-nil, append_assoc, arith, false, inl, inr, leb,
  length, length-append, none, refl, some, sym, true, ℕ, ◌++◌, ◌-◌, ◌<◌, ◌||◌, ◌∙◌, ◌∷◌, ◌≡◌, ◌≤◌,
}
use wim.Gateway.Frames.{GatewayToMessageFrame, heartbeat, register_gateway, register_result}
use wim.Gateway.Link.{
  Link, Step, decrement_inflight, decrements, done, drain, drains, enqueue, enqueues, heartbeats,
  increment_inflight, increments, max_stream_queue, new_link, on_done, on_read_done, on_write_done,
  reads, send_heartbeat, start, stop, stops, write_done, write_front,
}

pub record Inv (l : Link) : Type 0 where
  pub one_write : l.outstanding ≤ 1
  pub busy : 0 < l.outstanding → l.write_in_flight ≡ true
  pub idle : l.write_in_flight ≡ false → l.write_queue ≡ []
  pub dead : l.write_in_flight ≡ true → l.outstanding ≡ 0 → l.stopped ≡ true
  pub bounded : length l.write_queue ≤ max_stream_queue
  pub held_once : l.released ≤ 1
  pub released_once : l.external_hold ≡ true → l.released ≡ 0

abbrev pub backlog : Link → List GatewayToMessageFrame
backlog l = l.writes ++ l.write_queue

new_link-Inv : (id host : String) (port now : ℕ) → Inv (new_link id host port now)
unfolding new_link
new_link-Inv id host port now = ground arith

enqueue-Inv : (l : Link) (f : GatewayToMessageFrame) → Inv l → Inv (enqueue l f).0
unfolding enqueue
enqueue-Inv l f v = ground (arith, length-append l.write_queue (f ∷ []))

on_write_done-Inv : (l : Link) (ok : Bool) → 0 < l.outstanding → Inv l → Inv (on_write_done l ok)
unfolding on_write_done
on_write_done-Inv l ok h v = ground arith

Step-Inv : {l m : Link} → Step l m → Inv l → Inv m
unfolding send_heartbeat stop drain on_read_done on_done increment_inflight decrement_inflight
Step-Inv {l} (enqueues f) v = enqueue-Inv l f v
Step-Inv {l} (heartbeats now s) v = enqueue-Inv l (heartbeat now s) v
Step-Inv stops v = ground arith
Step-Inv drains v = ground arith
Step-Inv (reads frame now) v = ground arith
Step-Inv {l} (write_done ok h) v = on_write_done-Inv l ok h v
Step-Inv done v = ground arith
Step-Inv increments v = ground arith
Step-Inv decrements v = ground arith

start-Inv : (l : Link) (g i : String) (now : ℕ) → Inv l → l.released ≡ 0 → Inv (start l g i now)
unfolding start
start-Inv l g i now v z =
    enqueue-Inv (record l { external_hold = true }) (register_gateway g i now max_stream_queue)
      (ground arith)

-- The frames that a step accepts for writing.
abbrev kept : Bool → GatewayToMessageFrame → List GatewayToMessageFrame
kept true f = f ∷ []
kept false f = []

abbrev pub accepted : {l m : Link} → Step l m → List GatewayToMessageFrame
accepted {l} (enqueues f) = kept (enqueue l f).1 f
accepted {l} (heartbeats now s) = kept (enqueue l (heartbeat now s)).1 (heartbeat now s)
accepted stops = []
accepted drains = []
accepted (reads frame now) = []
accepted (write_done ok h) = []
accepted done = []
accepted increments = []
accepted decrements = []

write_front-backlog :
    (l : Link) (q : List GatewayToMessageFrame)
    → (q ≡ [] → l.write_queue ≡ [])
    → backlog (write_front l q) ≡ l.writes ++ q
unfolding write_front
write_front-backlog l [] h = rw (h refl)
write_front-backlog l (f ∷ q) h = append_assoc l.writes (f ∷ []) q

enqueue-backlog :
    (l : Link) (f : GatewayToMessageFrame)
    → backlog (enqueue l f).0 ≡ backlog l ++ kept (enqueue l f).1 f
unfolding enqueue
enqueue-backlog l f = elim (Bool-cases (l.stopped || leb max_stream_queue (length l.write_queue))) [
  | inl full ↦ rw (full, enqueue) (sym (append-nil (backlog l)))
  | inr room ↦ elim (Bool-cases l.write_in_flight) [
    | inl busy ↦ rw (room, busy, enqueue) (sym (append_assoc l.writes l.write_queue (f ∷ [])))
    | inr idle ↦
        rw (room, idle, enqueue)
          (write_front-backlog l (l.write_queue ++ (f ∷ []))
              (λ e. absurd (omega (arith, ap length e, length-append l.write_queue (f ∷ []))))
            ∙ sym (append_assoc l.writes l.write_queue (f ∷ [])))
  ]
]

Step-backlog : {l m : Link} (s : Step l m) → backlog m ≡ backlog l ++ accepted s
unfolding send_heartbeat stop drain on_read_done on_done increment_inflight decrement_inflight
    on_write_done
Step-backlog {l} (enqueues f) = enqueue-backlog l f
Step-backlog {l} (heartbeats now s) = enqueue-backlog l (heartbeat now s)
Step-backlog {l} (write_done true h) =
    write_front-backlog (record l { outstanding = l.outstanding - 1 }) l.write_queue (λ e. e)
    ∙ sym (append-nil (backlog l))
Step-backlog {l} (write_done false h) = ground (arith, append-nil (backlog l))
Step-backlog {l} (reads none now) = ground (arith, append-nil (backlog l))
Step-backlog {l} (reads (some (register_result b)) now) = ground (arith, append-nil (backlog l))
Step-backlog {l} _ = ground (arith, append-nil (backlog l))

pub data Run (l : Link) : Link → Type 0 where
  here : Run l l
  next : {m n : Link} → Run l m → Step m n → Run l n

abbrev pub all_accepted : {l m : Link} → Run l m → List GatewayToMessageFrame
all_accepted here = []
all_accepted (next r s) = all_accepted r ++ accepted s

Run-Inv : {l m : Link} → Run l m → Inv l → Inv m
Run-Inv here v = v
Run-Inv (next r s) v = Step-Inv s (Run-Inv r v)

Run-backlog : {l m : Link} (r : Run l m) → backlog m ≡ backlog l ++ all_accepted r
Run-backlog {l} here = sym (append-nil (backlog l))
Run-backlog {l} (next r s) =
    Step-backlog s
    ∙ ap (λ x. x ++ accepted s) (Run-backlog r)
    ∙ append_assoc (backlog l) (all_accepted r) (accepted s)

-- Through any history of a fresh link, the frames handed to the stream followed by those still
-- queued are the registration frame and then the accepted frames in the order of acceptance; at most
-- one write is outstanding, the queue holds at most 4096 frames, and the hold is released at most
-- once.
pub link_history :
    (id host g i : String) (port now : ℕ) {m : Link}
    (r : Run (start (new_link id host port now) g i now) m)
    → (m.writes ++ m.write_queue ≡ register_gateway g i now max_stream_queue ∷ all_accepted r)
      × (m.outstanding ≤ 1)
      × (length m.write_queue ≤ max_stream_queue)
      × (m.released ≤ 1)
unfolding start new_link
link_history id host g i port now {m} r =
    let v =
      Run-Inv r
        (start-Inv (new_link id host port now) g i now (new_link-Inv id host port now) refl) in
    (Run-backlog r, v.one_write, v.bounded, v.held_once)
