-- ===== src/Examples/Leases.antt =====
-- A Redis of functions, and runs of the session leases and of the registry.
use wim.Prelude.{
  Option, [], arith, false, if◌then◌else◌, inl, int_eq, nat_eq, none, pos, refl, some, string_eq,
  true, ℕ, ℤ, ◌+◌, ◌==◌, ◌↔◌, ◌∷◌, ◌≡◌,
}
use wim.Gateway.Frames.{DeliveryEnvelope, queued}
use wim.Gateway.Lease.{
  Redis, SessionLease, bind_session_lease, clear_session_lease, done, refresh_session_lease,
}
use wim.Gateway.Lease.Fencing.{old_lease_fenced, stay}
use wim.Gateway.Registry.{SessionRegistry, bind_local, deliver, remove_local}
use wim.Gateway.Registry.Delivery.{Receives, deliver_queued, remove_after_bind}
use wim.Prelude.Map.{lookup}
use wim.Wire.Packet.{Protobuf, empty_packet}

record Memory : Type 0 where
  counters : ℤ → ℕ
  leases : ℤ → Option SessionLease

-- Nothing runs out in it.
abbrev memory : Redis
memory = record {
  State = Memory;
  counter = λ u s. s.counters u;
  get = λ u s. s.leases u;
  incr = λ u s. record s { counters = λ v. if u == v then s.counters v + 1 else s.counters v };
  setex = λ u ttl l s. record s { leases = λ v. if u == v then some l else s.leases v };
  expire = λ u ttl s. s;
  del = λ u s. record s { leases = λ v. if u == v then none else s.leases v };
  elapse = λ s. s;
  counter-incr = λ u v s. refl;
  get-incr = λ u v s. refl;
  counter-setex = λ u v ttl l s. refl;
  get-setex = λ u v ttl l s. refl;
  counter-expire = λ u v ttl s. refl;
  get-expire = λ u v ttl s. refl;
  counter-del = λ u v s. refl;
  get-del = λ u v s. refl;
  counter-elapse = λ v s. refl;
  get-elapse = λ v s. inl refl;
}

-- User 5 is on its first connection.
abbrev old_lease : SessionLease
old_lease = record {
  gateway_id = "g1";
  instance_id = "i1";
  connection_id = "c1";
  generation = pos 1;
}

abbrev logged_in : Memory
logged_in = record {
  counters = λ v. if v == pos 5 then 1 else 0;
  leases = λ v. if v == pos 5 then some old_lease else none;
}

abbrev second_login : Memory
second_login = (bind_session_lease memory done (pos 5) "g2" "i2" "c2" 60 logged_in).0

second_login-generation :
    (bind_session_lease memory done (pos 5) "g2" "i2" "c2" 60 logged_in).1 ≡ pos 2
unfolding bind_session_lease
second_login-generation = refl

old_lease_fenced_example :
    (refresh_session_lease memory done (pos 5) old_lease 60 second_login ≡ (second_login, false))
    × ((clear_session_lease memory done (pos 5) old_lease second_login).0 ≡ second_login)
old_lease_fenced_example =
    old_lease_fenced memory done done (pos 5) "g2" "i2" "c2" 60 60 1 2 old_lease logged_in refl
      (omega arith) second_login-generation stay

abbrev registry : SessionRegistry
registry = record {
  gateway_id = "g2";
  instance_id = "i2";
  lease_ttl_seconds = 60;
  sessions = (pos 5, record { session = 1; lease = old_lease }) ∷ [];
}

abbrev delivery_to_5 : DeliveryEnvelope
delivery_to_5 = record {
  delivery_id = "d";
  recipient_uid = pos 5;
  expected_connection_id = "c1";
  expected_connection_generation = pos 1;
  protocol_id = 1027;
  packet = [];
}

-- Packets that no field is read from.
abbrev pub plain : Protobuf
plain = record { serialize = λ p. []; parse = λ b. some empty_packet }

deliver_queued_example :
    (deliver plain (λ s. true) (λ s p. true) delivery_to_5 registry ≡ queued)
    ↔ Receives plain (λ s. true) (λ s p. true) delivery_to_5 registry
deliver_queued_example = deliver_queued plain (λ s. true) (λ s p. true) delivery_to_5 registry

abbrev new_lease : SessionLease
new_lease = record {
  gateway_id = "g2";
  instance_id = "i2";
  connection_id = "c2";
  generation = pos 2;
}

remove_after_bind_example :
    (remove_local (λ s. true) (pos 5) 1 (bind_local (λ s. true) (pos 5) 2 new_lease registry).0
      ≡ ((bind_local (λ s. true) (pos 5) 2 new_lease registry).0, false))
    × (lookup (pos 6) (bind_local (λ s. true) (pos 5) 2 new_lease registry).0.sessions ≡ (
        if pos 5 == pos 6
        then some (record { session = 2; lease = new_lease })
        else lookup (pos 6) registry.sessions))
remove_after_bind_example =
    remove_after_bind (λ s. true) (pos 5) (pos 6) 2 1 new_lease registry refl (λ e. cc)
