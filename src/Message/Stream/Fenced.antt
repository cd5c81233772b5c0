-- ===== src/Message/Stream/Fenced.antt =====
-- A command of a connection that is no longer the user's current one does nothing.
use wim.Prelude.{
  ==→eq, Bool-cases, String, [], arith, eqb, false, inl, inr, int_eq, leb, nat_eq, refl, string_eq,
  true, ℕ, ℤ, ◌<◌, ◌≡◌, ◌⊎◌,
}
use wim.Gateway.Frames.{CommandEnvelope}
use wim.Gateway.Lease.{SessionLease}
use wim.Message.Packet.{MessagePacket}
use wim.Message.Stream.Worker.{
  Origin, TaskResult, Wire, failure_of, is_current, result_of, run_task,
}
use wim.Protocol.{error_value, success}
use wim.Store.{Ending, Tables}

module _ (wire : Wire) (to_text : ℤ → String)
    (execute : ℕ → ℤ → MessagePacket → Tables → Tables × MessagePacket) where
  -- The stream and the connection are the ones that the lease names, and there was time left.
  abbrev pub IsCurrent : ℕ → SessionLease → Origin → CommandEnvelope → Type 0
  IsCurrent clock lease o c =
      (clock < c.deadline_unix_ms)
      × (lease.gateway_id ≡ o.gateway)
      × (lease.instance_id ≡ o.instance_id)
      × (lease.connection_id ≡ c.connection_id)
      × (lease.generation ≡ c.connection_generation)

  abbrev pub DoesNothing : Tables → TaskResult → Type 0
  DoesNothing t r =
      (r.tables ≡ t) × (r.deliveries ≡ []) × (eqb r.answer.error (error_value success) ≡ false)

  is_current-IsCurrent :
      (clock : ℕ) (lease : SessionLease) (o : Origin) (c : CommandEnvelope)
      → leb c.deadline_unix_ms clock ≡ false
      → is_current wire to_text o c lease ≡ true
      → IsCurrent clock lease o c
  unfolding is_current
  is_current-IsCurrent clock lease o c late h = (
    ground (arith, late),
    ==→eq lease.gateway_id o.gateway (ground arith),
    ==→eq lease.instance_id o.instance_id (ground arith),
    ==→eq lease.connection_id c.connection_id (ground arith),
    ==→eq lease.generation c.connection_generation (ground arith),
  )

  pub run_task_fenced :
      (clock : ℕ) (lease : SessionLease) (ending : Ending) (now : String) (o : Origin)
      (c : CommandEnvelope) (t : Tables)
      → IsCurrent clock lease o c
        ⊎ DoesNothing t (run_task wire to_text execute clock lease ending now o c t)
  unfolding run_task failure_of result_of error_value
  run_task_fenced clock lease ending now o c t = elim (Bool-cases (leb c.deadline_unix_ms clock)) [
    | inl late ↦ rw late (inr (refl, refl, refl))
    | inr early ↦ elim (Bool-cases (is_current wire to_text o c lease)) [
      | inl current ↦ inl (is_current-IsCurrent clock lease o c early current)
      | inr stale ↦ rw (early, stale) (inr (refl, refl, refl))
    ]
  ]
