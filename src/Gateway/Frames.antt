-- ===== src/Gateway/Frames.antt =====
-- The messages of server/public/proto/gateway_message.proto, with the fields that the Gateway uses.
use wim.Prelude.{Bool, List, String, ℕ, ℤ}

pub record CommandEnvelope : Type 0 where
  pub request_id : String
  pub actor_uid : ℤ
  pub connection_id : String
  pub connection_generation : ℤ
  pub service_id : ℕ
  pub conversation_id : ℤ
  pub deadline_unix_ms : ℕ
  pub packet : List ℕ

pub record CommandResult : Type 0 where
  pub request_id : String
  pub response_service_id : ℕ
  pub error : ℕ
  pub retryable : Bool
  pub packet : List ℕ

pub record DeliveryEnvelope : Type 0 where
  pub delivery_id : String
  pub recipient_uid : ℤ
  pub expected_connection_id : String
  pub expected_connection_generation : ℤ
  pub protocol_id : ℕ
  pub packet : List ℕ

pub data DeliveryStatus : Type 0 where
  unspecified queued offline stale_route backpressured : DeliveryStatus

pub data GatewayToMessageFrame : Type 0 where
  register_gateway : String → String → ℕ → ℕ → GatewayToMessageFrame
  command : CommandEnvelope → GatewayToMessageFrame
  delivery_ack : String → DeliveryStatus → String → String → GatewayToMessageFrame
  heartbeat : ℕ → ℕ → GatewayToMessageFrame

pub data MessageToGatewayFrame : Type 0 where
  register_result : Bool → MessageToGatewayFrame
  command_result : CommandResult → MessageToGatewayFrame
  delivery : DeliveryEnvelope → MessageToGatewayFrame
  heartbeat_ack : MessageToGatewayFrame
  drain_notice : MessageToGatewayFrame
  empty_frame : MessageToGatewayFrame
