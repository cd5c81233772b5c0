-- ===== src/Examples/Streams.antt =====
-- The streams of the Message node at concrete inputs.
use wim.Prelude.{
  String, [], false, int_eq, nat_eq, none, pos, refl, some, string_eq, ℕ, ℤ, ◌≡◌, ◌⊎◌,
}
use wim.Examples.Store.{no_messages}
use wim.Gateway.Frames.{CommandEnvelope}
use wim.Gateway.Lease.{SessionLease}
use wim.Message.Packet.{MessagePacket, error_packet, no_fields}
use wim.Message.Stream.{StreamService, accepts_registration, connect, new_reactor, on_done}
use wim.Message.Stream.Delivered.{NotSent, SentOnce, text_delivered_once}
use wim.Message.Stream.Fenced.{DoesNothing, IsCurrent, run_task_fenced}
use wim.Message.Stream.Twice.{registers, second_registration_leaks}
use wim.Message.Stream.Worker.{Origin, Wire, run_business, run_task}
use wim.Prelude.Map.{insert, lookup}
use wim.Protocol.{ErrorCodes, service_value}
use wim.Store.{Tables, committed}

abbrev note : MessagePacket
note = record no_fields {
  uid = some (pos 1);
  to = some (pos 2);
  text = some "hello";
  client_message_id = some "1:1";
}

abbrev one_note : Wire
one_note = record { write = λ p. []; read = λ bytes. some note }

abbrev digits : ℤ → String
digits z = "7"

abbrev not_found : ℕ → ℤ → MessagePacket → Tables → Tables × MessagePacket
not_found service actor p t = (t, error_packet ErrorCodes.not_found none)

abbrev text_envelope : CommandEnvelope
text_envelope = record {
  request_id = "r1";
  actor_uid = pos 1;
  connection_id = "c1";
  connection_generation = pos 3;
  service_id = 1027;
  conversation_id = pos 0;
  deadline_unix_ms = 5000;
  packet = [];
}

abbrev origin : Origin
origin = record { gateway = "gw"; instance_id = "i1"; reactor = 9 }

abbrev older_lease : SessionLease
older_lease = record {
  gateway_id = "gw";
  instance_id = "i1";
  connection_id = "c1";
  generation = pos 4;
}

run_task_fenced_example :
    IsCurrent one_note digits not_found 1000 older_lease origin text_envelope
    ⊎ DoesNothing one_note digits not_found no_messages (
        run_task one_note digits not_found 1000 older_lease committed "09:00" origin text_envelope
          no_messages)
run_task_fenced_example =
    run_task_fenced one_note digits not_found 1000 older_lease committed "09:00" origin
      text_envelope no_messages

text_delivered_once_example :
    SentOnce one_note digits not_found no_messages
      (run_business one_note digits not_found committed "09:00" text_envelope note no_messages)
    ⊎ NotSent one_note digits not_found committed no_messages
        (run_business one_note digits not_found committed "09:00" text_envelope note no_messages)
unfolding service_value
text_delivered_once_example =
    text_delivered_once one_note digits not_found "09:00" text_envelope note no_messages committed
      refl

abbrev one_stream : StreamService
one_stream = connect 9 "gw" (record {
  message_node_id = "m1";
  require_peer_identity = false;
  draining = false;
  streams = [];
  reactors = [];
})

abbrev renamed : StreamService
renamed = on_done 9 (
    registers one_note digits 2000 9 1 "other" "i2" 6
      (registers one_note digits 1000 9 1 "gw" "i1" 5 one_stream))

second_registration_leaks_example :
    (lookup "gw" renamed.streams ≡ some (record { instance_id = "i1"; reactor = 9 }))
    × (lookup 9 renamed.reactors ≡ none)
unfolding lookup connect insert accepts_registration
second_registration_leaks_example =
    second_registration_leaks one_note digits 1000 2000 9 1 1 "gw" "i1" "other" "i2" 5 6
      (new_reactor "gw") one_stream refl refl refl
