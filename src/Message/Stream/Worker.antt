-- ===== src/Message/Stream/Worker.antt =====
-- GatewayStreamReactor::HandleCommand (server/message/src/service/GatewayStreamService.cc): what is answered at once,
-- and the task that a worker runs.
use Prim.Native.String
use wim.Prelude.{
  Bool, List, Option, String, [], eqb, false, if◌then◌else◌, int_eq, is_empty, leb, map, nat_eq,
  none, not, pos, some, string_eq, true, ℕ, ℤ, ◌&&◌, ◌==◌, ◌||◌,
}
use wim.Gateway.Frames.{CommandEnvelope, CommandResult}
use wim.Gateway.Lease.{SessionLease, lease_is_empty}
use wim.Message.Packet.{MessagePacket, error_packet, packet_error}
use wim.Message.Service.{AcceptedText, accept_group, accept_text}
use wim.Message.Stream.{Delivery}
use wim.Protocol.{
  ErrorCodes, authentication_required, deadline_exceeded, error_value, get_service_response_id,
  group_text_send_req, is_retryable_error, json_parser, resource_exhausted, service_value,
  text_send_req,
}
use wim.Store.{Ending, Tables}
use wim.Wire.Packet.{value_or}

-- Protobuf's SerializeToString and ParseFromString on the packet.
pub record Wire : Type 0 where
  pub write : MessagePacket → List ℕ
  pub read : List ℕ → Option MessagePacket

-- The origin is remembered by value, the reactor by its address.
pub record Origin : Type 0 where
  pub gateway : String
  pub instance_id : String
  pub reactor : ℕ

-- What a task does: its answer to the Gateway, the messages for recipients, and the tables after it.
pub record TaskResult : Type 0 where
  pub answer : CommandResult
  pub deliveries : List Delivery
  pub tables : Tables

module _ (wire : Wire) (to_text : ℤ → String) where
  unfoldable pub result_of : CommandEnvelope → ℕ → Bool → MessagePacket → CommandResult
  result_of c code again p = record {
    request_id = c.request_id;
    response_service_id = get_service_response_id c.service_id;
    error = code;
    retryable = again;
    packet = wire.write p;
  }

  unfoldable pub failure_of : CommandEnvelope → ErrorCodes → Bool → Option String → CommandResult
  failure_of c code again reason = result_of c (error_value code) again (error_packet code reason)

  -- The answers that HandleCommand gives itself; `none` posts the task.
  unfoldable pub precheck : Bool → ℕ → CommandEnvelope → Option CommandResult
  precheck registered now c =
      if not registered || is_empty c.request_id
      then some (
          failure_of c authentication_required false
            (some "gateway stream must register before sending commands"))
      else if leb c.deadline_unix_ms now
      then some (failure_of c deadline_exceeded true (some "command deadline already elapsed"))
      else none

  unfoldable pub queue_full : CommandEnvelope → CommandResult
  queue_full c = failure_of c resource_exhausted true (some "message worker queue is full")

  -- The lease must name the stream that the command came on, and the connection that sent it.
  unfoldable pub is_current : Origin → CommandEnvelope → SessionLease → Bool
  is_current o c lease =
      not (lease_is_empty lease)
      && lease.gateway_id == o.gateway
      && lease.instance_id == o.instance_id
      && lease.connection_id == c.connection_id
      && lease.generation == c.connection_generation

  unfoldable pub delivery_to : ℕ → MessagePacket → MessagePacket → ℤ → Delivery
  delivery_to protocol response p uid = record {
    delivery_id =
        String.◌++◌ (to_text (value_or (pos 0) response.message_id))
          (String.◌++◌ ":" (to_text uid));
    recipient_uid = uid;
    expected_connection_id = "";
    expected_connection_generation = pos 0;
    protocol_id = protocol;
    message_id = value_or (pos 0) response.message_id;
    conversation_id = value_or (pos 0) response.conversation_id;
    conversation_seq = value_or (pos 0) response.conversation_seq;
    packet = wire.write p;
  }

  unfoldable pub deliveries_of : ℕ → AcceptedText → List Delivery
  deliveries_of protocol a =
      if a.should_deliver then map (delivery_to protocol a.response a.delivery) a.recipients else []

  unfoldable pub text_result : CommandEnvelope → ℕ → Tables × AcceptedText → TaskResult
  text_result c protocol stored = record {
    answer =
        result_of c (packet_error stored.1.response) (value_or false stored.1.response.retryable)
          stored.1.response;
    deliveries = deliveries_of protocol stored.1;
    tables = stored.0;
  }

  -- `execute` is Service::ExecuteGatewayCommand, the other services.
  module _ (execute : ℕ → ℤ → MessagePacket → Tables → Tables × MessagePacket) where
    unfoldable pub run_business :
        Ending → String → CommandEnvelope → MessagePacket → Tables → TaskResult
    run_business ending now c p t =
        let handled = execute c.service_id c.actor_uid p t in
        if eqb c.service_id (service_value text_send_req)
        then text_result c (service_value text_send_req) (accept_text to_text ending now p t)
        else if eqb c.service_id (service_value group_text_send_req)
        then text_result c (service_value group_text_send_req) (accept_group to_text ending now p t)
        else record {
          answer =
              result_of c (packet_error handled.1) (is_retryable_error (packet_error handled.1))
                handled.1;
          deliveries = [];
          tables = handled.0;
        }

    abbrev pub run_parsed :
        Option MessagePacket → Ending → String → CommandEnvelope → Tables → TaskResult
    run_parsed none ending now c t = record {
      answer = failure_of c json_parser false none;
      deliveries = [];
      tables = t;
    }
    run_parsed (some p) ending now c t =
        run_business ending now c (record p { uid = some c.actor_uid }) t

    -- `clock` is when the worker takes the task up, `lease` what Redis then answers for the actor.
    unfoldable pub run_task :
        ℕ → SessionLease → Ending → String → Origin → CommandEnvelope → Tables → TaskResult
    run_task clock lease ending now o c t =
        if leb c.deadline_unix_ms clock
        then record {
          answer =
              failure_of c deadline_exceeded true
                (some "command expired while waiting for a message worker");
          deliveries = [];
          tables = t;
        }
        else if not (is_current o c lease)
        then record {
          answer =
              failure_of c authentication_required false
                (some "connection generation is no longer current");
          deliveries = [];
          tables = t;
        }
        else run_parsed (wire.read c.packet) ending now c t
