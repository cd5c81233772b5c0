-- ===== src/Client/Connection/Refusal.antt =====
-- A login that the Gateway refuses ends the session: the credentials are not tried again.
use wim.Prelude.{List, eqb, false, refl, some, ℕ, ◌≡◌}
use wim.Client.Connection.{
  Connection, Phase, authenticating, closing, connecting, disconnected, online, reconnecting,
  set_phase,
}
use wim.Client.Connection.Requests.{fail_all_pending}
use wim.Client.Connection.Socket.{
  handle_login_response, login_refused, on_disconnected, on_reconnect_timer, start_socket,
}
use wim.Client.FrameCodec.{DataStream}
use wim.Client.Packet.{Packet, Serializer}
use wim.Protocol.{client_error_value, success}
use wim.Wire.Packet.{value_or}

-- Disconnected, with the wish and the timer as they were.
abbrev Ended : Connection → Connection → Type 0
Ended c d =
    (d.phase ≡ disconnected)
    × (d.desired_open ≡ c.desired_open)
    × (d.reconnect_timer ≡ c.reconnect_timer)

set_phase-Ended : (p : Phase) (c : Connection) → c.phase ≡ p → Ended c (set_phase disconnected c)
unfolding set_phase
set_phase-Ended disconnected c e = rw e (refl, refl, refl)
set_phase-Ended connecting c e = rw e (refl, refl, refl)
set_phase-Ended authenticating c e = rw e (refl, refl, refl)
set_phase-Ended online c e = rw e (refl, refl, refl)
set_phase-Ended reconnecting c e = rw e (refl, refl, refl)
set_phase-Ended closing c e = rw e (refl, refl, refl)

module _ (qt : DataStream) (pb : Serializer) (now : ℕ) (bounded : ℕ → ℕ) where
  abbrev pub after_login : List ℕ → Connection → Connection
  after_login payload c =
      on_disconnected now bounded (handle_login_response qt pb now bounded payload c)

  -- After a login response with an error code, and the report of the disconnection that follows it, the
  -- connection is Disconnected and not desired open, no reconnection was scheduled, and a timer that
  -- was running does not open the socket either.
  pub refused_login :
      (payload : List ℕ) (p : Packet) (c : Connection)
      → pb.deserialize payload ≡ some p
      → eqb (value_or 0 p.error) (client_error_value success) ≡ false
      → ((after_login payload c).phase ≡ disconnected)
        × ((after_login payload c).desired_open ≡ false)
        × ((after_login payload c).reconnect_timer ≡ c.reconnect_timer)
        × ((on_reconnect_timer (after_login payload c)).emitted ≡ (after_login payload c).emitted)
  unfolding handle_login_response on_disconnected login_refused on_reconnect_timer start_socket
      fail_all_pending
  refused_login payload p c parsed bad =
      let k = set_phase-Ended c.phase _ refl in rw (parsed, bad) (k.0, k.1, k.2, rw k.1 refl)
