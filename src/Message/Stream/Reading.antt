-- ===== src/Message/Stream/Reading.antt =====
-- OnReadDone (server/message/src/service/GatewayStreamService.cc), and what becomes of a task that has been run.
use wim.Prelude.{
  Bool, List, Option, String, [], false, int_eq, nat_eq, none, some, string_eq, true, ℕ, ℤ, ◌∷◌,
}
use wim.Gateway.Frames.{CommandEnvelope, CommandResult}
use wim.Gateway.Lease.{SessionLease}
use wim.Message.Stream.{
  Delivery, InFrame, Reactor, StreamService, answered_command, beat, beat_ack, deliver_to_user,
  enqueue_frame, finish_once, handle_register, ignored, incoming, put, registration, reply,
}
use wim.Message.Stream.Worker.{Origin, TaskResult, Wire, precheck, queue_full}
use wim.Prelude.Map.{lookup}

module _ (wire : Wire) (to_text : ℤ → String) where
  abbrev pub posted :
      Option CommandResult
      → Bool
      → ℕ
      → Reactor
      → CommandEnvelope
      → StreamService
      → StreamService × Option (Origin × CommandEnvelope)
  posted (some refusal) room address r c s =
      (put address (enqueue_frame r (answered_command refusal)).0 s, none)
  posted none true address r c s = (
    s,
    some (record { gateway = r.gateway_id; instance_id = r.instance_id; reactor = address }, c),
  )
  posted none false address r c s =
      (put address (enqueue_frame r (answered_command (queue_full wire to_text c))).0 s, none)

  -- One frame. The second component is the task for the pool; `room` is whether the pool takes one.
  abbrev pub read_frame :
      ℕ
      → Bool
      → ℕ
      → Reactor
      → InFrame
      → StreamService
      → StreamService × Option (Origin × CommandEnvelope)
  read_frame now room address r (registration version gateway instance_id epoch) s =
      (handle_register address r version gateway instance_id epoch s, none)
  read_frame now room address r (incoming c) s =
      posted (precheck wire to_text r.registered now c) room address r c s
  read_frame now room address r (beat sent sequence) s =
      (put address (enqueue_frame r (beat_ack sent sequence)).0 s, none)
  read_frame now room address r ignored s = (s, none)

  abbrev pub read_by :
      ℕ
      → Bool
      → ℕ
      → Option Reactor
      → Option InFrame
      → StreamService
      → StreamService × Option (Origin × CommandEnvelope)
  read_by now room address none f s = (s, none)
  read_by now room address (some r) none s = (put address (finish_once r) s, none)
  read_by now room address (some r) (some f) s = read_frame now room address r f s

  -- `none` is `ok == false`.
  unfoldable pub on_read :
      ℕ
      → Bool
      → ℕ
      → Option InFrame
      → StreamService
      → StreamService × Option (Origin × CommandEnvelope)
  on_read now room address f s = read_by now room address (lookup address s.reactors) f s

-- DeliverToUser for each recipient; `leases` gives the two answers of Redis for a user.
abbrev pub deliver_all :
    (ℤ → SessionLease × SessionLease) → List Delivery → StreamService → Option StreamService
deliver_all leases [] s = some s
deliver_all leases (d ∷ ds) s =
    elim (deliver_to_user (leases d.recipient_uid).0 (leases d.recipient_uid).1 d.recipient_uid d
      s) [ none ↦ none | some (s', ok) ↦ deliver_all leases ds s' ]

-- The end of a task: Reply, then the deliveries.
unfoldable pub finish_task :
    (ℤ → SessionLease × SessionLease) → Origin → TaskResult → StreamService → Option StreamService
finish_task leases o r s =
    elim (reply o.gateway o.instance_id o.reactor (answered_command r.answer) s) [
      | none ↦ none
      | some (s', ok) ↦ deliver_all leases r.deliveries s'
    ]
