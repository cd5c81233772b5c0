-- ===== src/Examples/Sessions.antt =====
-- Runs of one client connection.
use wim.Prelude.{
  List, String, [], arith, false, int_eq, is_positive, length, nat_eq, none, not, pos, refl, some,
  string_eq, true, ℕ, ℤ, ◌&&◌, ◌++◌, ◌+◌, ◌-◌, ◌<◌, ◌==◌, ◌∷◌, ◌≡◌, ◌≢◌, ◌≤◌, ◌⊎◌,
}
use wim.Examples.Leases.{plain}
use wim.Gateway.Frames.{CommandEnvelope}
use wim.Gateway.Lease.{SessionLease, lease_is_empty}
use wim.Gateway.Session.{GatewaySession, continue_loop, new_session, run_posted, send_raw}
use wim.Gateway.Session.Gate.{Vouched, forwarding-Vouched}
use wim.Gateway.Session.History.{Run, begins_loop, here, next, runs_task, sends, session_history}
use wim.Gateway.Session.Login.{Accounts, authenticate, load_profile, token_is_valid}
use wim.Gateway.Session.Login.Granted.{login_granted}
use wim.Gateway.Session.Packets.{dispatch, forwarding, handle_packet, submit}
use wim.Gateway.Session.Queue.{pushes, unwritten}
use wim.Gateway.Session.Rate.{admitted_count, admitted_count_le}
use wim.Gateway.Session.Reliable.{retransmissions_end, timeouts}
use wim.Prelude.Map.{lookup}
use wim.Protocol.{ServiceId, error_value, service_value}
use wim.Wire.Packet.{TcpPacket, empty_packet, value_or}

abbrev name : ℕ → String
name n = "1"

abbrev fresh : GatewaySession
fresh = new_session "c1" 0

-- A frame is accepted, queued and handed to the socket.
abbrev sent_once : GatewaySession
sent_once = continue_loop (run_posted (send_raw (7 ∷ []) 1014 fresh).0)

sent_once-Run : Run plain name fresh sent_once
unfolding new_session run_posted send_raw
sent_once-Run = next (next (next here (sends (7 ∷ []) 1014)) runs_task) (begins_loop refl)

session_history_example :
    (sent_once.queued_writes ≡ length (pushes sent_once.posted) + length sent_once.write_queue)
    × (sent_once.queued_writes ≤ 10240)
    × ((sent_once.closed ≡ true)
        ⊎ (sent_once.accepted
            ≡ sent_once.written
              ++ (unwritten sent_once.loop sent_once.write_queue ++ pushes sent_once.posted)))
    × ((rest : List (List ℕ)) × (sent_once.accepted ≡ sent_once.written ++ rest))
session_history_example = session_history plain name "c1" 0 sent_once-Run

abbrev bound : GatewaySession
bound = record fresh {
  user_id = pos 5;
  lease = record {
    gateway_id = "g1";
    instance_id = "i1";
    connection_id = "c1";
    generation = pos 1;
  };
  reliable_writes = (pos 9, record { packet = 7 ∷ []; protocol_id = 1027; attempts = 1 }) ∷ [];
}

admitted_count_le_example : admitted_count (100 ∷ 200 ∷ 1050 ∷ []) bound ≤ 200
unfolding new_session
admitted_count_le_example =
    admitted_count_le 100 (100 ∷ 200 ∷ 1050 ∷ []) bound
      ((omega arith, omega arith), ((omega arith, omega arith), ((omega arith, omega arith), tt)))
      (omega arith)

retransmissions_end_example :
    (length (timeouts 2 (pos 9) bound).accepted ≤ length bound.accepted + 2)
    × (lookup (pos 9) (timeouts 5 (pos 9) bound).reliable_writes ≡ none)
unfolding lookup
retransmissions_end_example =
    retransmissions_end 2 (pos 9) (record { packet = 7 ∷ []; protocol_id = 1027; attempts = 1 })
      bound refl (omega arith)

-- A text message at time 500.
abbrev text_command : CommandEnvelope
text_command = record {
  request_id = "c1:1";
  actor_uid = pos 5;
  connection_id = "c1";
  connection_generation = pos 1;
  service_id = 1027;
  conversation_id = pos 0;
  deadline_unix_ms = 3900;
  packet = [];
}

text_command-forwarded :
    (handle_packet plain name 1027 [] 500 900 bound).1 ≡ forwarding text_command true
unfolding handle_packet new_session dispatch submit
text_command-forwarded = refl

forwarding-Vouched_example :
    (is_positive bound.user_id ≡ true)
    × (500 - bound.last_lease_refresh < 20000)
    × (1027 ≢ service_value ServiceId.login_init_req)
    × (1027 ≢ service_value ServiceId.ping_req)
    × (1027 ≢ service_value ServiceId.user_quit_req)
    × Vouched plain bound 1027 500 900 text_command
    × (true ≡ not (1027 == service_value ServiceId.ack))
forwarding-Vouched_example =
    forwarding-Vouched plain name 1027 500 900 [] bound text_command true text_command-forwarded

-- Every token is valid and every user has a profile.
abbrev everyone : Accounts
everyone = record {
  Database = ℕ;
  validate_chat_auth_token = λ uid token db. true;
  insert_user_info = λ info db. (db + 1, true);
  get_user_info = λ uid db.
      some (record { uid = uid; name = "n"; age = pos 20; sex = "f"; head_image_url = "" });
}

abbrev grant : ℤ → ℕ → ℕ × SessionLease
grant uid s = (
  s + 1,
  record { gateway_id = "g1"; instance_id = "i1"; connection_id = "c1"; generation = pos 1 },
)

abbrev login_request : TcpPacket
login_request = record empty_packet { uid = some (pos 5); auth_token = some "t" }

login-accepted : (authenticate everyone grant (pos 0) login_request (0, 0)).1.error ≡ 0
unfolding authenticate load_profile lease_is_empty error_value
login-accepted = refl

login_granted_example :
    (is_positive (value_or (pos 0) login_request.uid) ≡ true)
    × (token_is_valid everyone (value_or (pos 0) login_request.uid) login_request.auth_token 0
        ≡ true)
    × ((is_positive (pos 0) && not (pos 0 == value_or (pos 0) login_request.uid)) ≡ false)
    × (lease_is_empty (authenticate everyone grant (pos 0) login_request (0, 0)).1.lease ≡ false)
    × ((authenticate everyone grant (pos 0) login_request (0, 0)).1.response.uid
        ≡ some (value_or (pos 0) login_request.uid))
login_granted_example = login_granted everyone grant (pos 0) login_request 0 0 login-accepted
