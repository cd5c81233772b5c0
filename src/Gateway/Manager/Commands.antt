-- ===== src/Gateway/Manager/Commands.antt =====
-- The life of a command in MessageLinkManager: Forward, OnFrame, ExpirePending, RetryPending, Stop.
-- Other threads run between the two critical sections of `Forward`, so these are two functions; a
-- round of `RetryPending` is one.
pub mod Conservation
pub mod Retry
pub mod Once
pub mod Admission
use wim.Prelude.{
  Bool, List, Option, String, [], if◌then◌else◌, int_eq, is_empty, leb, ltb, nat_eq, none, not,
  some, string_eq, true, ℕ, ℤ, ◌&&◌, ◌++◌, ◌+◌, ◌==◌, ◌||◌, ◌∷◌,
}
use wim.Gateway.Frames.{
  CommandEnvelope, CommandResult, DeliveryStatus, MessageToGatewayFrame, command, command_result,
  delivery, delivery_ack, drain_notice, empty_frame, heartbeat_ack, register_result,
}
use wim.Gateway.Link.{Link, decrement_inflight, drain, enqueue, increment_inflight, stop}
use wim.Gateway.Manager.{Manager, PendingCommand, accepts, enqueue_at, modify, on_link, select_link}
use wim.Message.Service.Receipt.{ack}
use wim.Prelude.Map.{Map, erase, insert, lookup}
use wim.Protocol.{ErrorCodes, ServiceId, error_value, get_service_response_id, service_value}
use wim.Wire.Packet.{Protobuf, make_error_packet}

-- `CanRetryOnAnotherMessageNode`
unfoldable pub can_retry_on_another_message_node : ℕ → Bool
unfolding service_value
can_retry_on_another_message_node id =
    id == service_value ServiceId.text_send_req
    || id == service_value ServiceId.group_text_send_req
    || id == service_value ServiceId.pull_friend_list_req
    || id == service_value ServiceId.pull_friend_apply_list_req
    || id == service_value ServiceId.pull_session_message_list_req
    || id == service_value ServiceId.pull_message_list_req
    || id == service_value ServiceId.ack

-- `if (command.callback) command.callback(result)`
abbrev pub call : Option ℕ → CommandResult → List (ℕ × CommandResult)
call none result = []
call (some callback) result = (callback, result) ∷ []

-- Find a pending command, erase it and call back with a result made from it.
unfoldable pub finish : String → (PendingCommand → CommandResult) → Manager → Manager
finish request_id result m = elim (lookup request_id m.pending) [
  | none ↦ m
  | some p ↦ record m {
    pending = erase request_id m.pending;
    calls = m.calls ++ call p.callback (result p);
  }
]

unfoldable pub stop_links : Map String ℕ → Map ℕ Link → Map ℕ Link
stop_links [] store = store
stop_links ((node, address) ∷ rest) store = stop_links rest (modify address stop store)

module _ (pb : Protobuf) where
  -- The result that the manager makes up itself.
  unfoldable pub failure : ErrorCodes → String → PendingCommand → CommandResult
  unfolding make_error_packet get_service_response_id error_value
  failure code text p = record {
    request_id = p.command.request_id;
    response_service_id = get_service_response_id p.command.service_id;
    error = error_value code;
    retryable = true;
    packet = pb.serialize (make_error_packet (error_value code) text);
  }

  unfoldable pub expire_pending : String → Manager → Manager
  unfolding finish failure
  expire_pending request_id =
      finish request_id (failure ErrorCodes.deadline_exceeded "message command deadline exceeded")

  -- The second part of `Forward`: the frame goes to the link, or the command is taken back.
  unfoldable pub forward_send : ℕ → CommandEnvelope → Manager → Manager
  unfolding finish failure accepts
  forward_send address c m =
      if accepts m.store address (command c)
      then on_link m address (λ l. increment_inflight (enqueue l (command c)).0)
      else finish c.request_id
          (failure ErrorCodes.resource_exhausted "message stream queue is full")
          (on_link m address (λ l. (enqueue l (command c)).0))

  abandoned : Map String PendingCommand → List (ℕ × CommandResult)
  abandoned [] = []
  abandoned ((request_id, p) ∷ rest) =
      call p.callback (failure ErrorCodes.dependency_unavailable "message links are stopping" p)
      ++ abandoned rest

  -- The last part of `Stop`.
  unfoldable pub abandon_pending : Manager → Manager
  unfolding abandoned failure
  abandon_pending m = record m { pending = []; calls = m.calls ++ abandoned m.pending }

  unfoldable pub stop_manager : Manager → Manager
  unfolding stop_links abandon_pending
  stop_manager m =
      if m.stopping
      then m
      else abandon_pending (record m { stopping = true; store = stop_links m.links m.store })

-- OnFrame on a CommandResult.
unfoldable pub on_command_result : String → CommandResult → Manager → Manager
unfolding finish
on_command_result node_id result m =
    finish result.request_id (λ p. result)
      (record m {
        store = elim (lookup node_id m.links) [
          | none ↦ m.store
          | some address ↦ modify address decrement_inflight m.store
        ];
      })

-- OnFrame: `status` is what the delivery handler returned, or offline where none is installed.
unfoldable pub on_frame : String → MessageToGatewayFrame → DeliveryStatus → Manager → Manager
unfolding on_command_result
on_frame node_id (command_result result) status m = on_command_result node_id result m
on_frame node_id (register_result ok) status m =
    if ok then record m { reconnect_attempts = insert node_id 0 m.reconnect_attempts } else m
on_frame node_id heartbeat_ack status m = m
on_frame node_id drain_notice status m = elim (lookup node_id m.links) [
  | none ↦ m
  | some address ↦ on_link m address drain
]
on_frame node_id (delivery d) status m = elim (lookup node_id m.links) [
  | none ↦ m
  | some address ↦
      enqueue_at address (delivery_ack d.delivery_id status m.gateway_id m.instance_id) m
]
on_frame node_id empty_frame status m = m

-- `found->second.linkId = retry->Id()`, if the command is still pending.
relink : String → String → Map String PendingCommand → Map String PendingCommand
relink request_id link pending = elim (lookup request_id pending) [
  | none ↦ pending
  | some q ↦ insert request_id (record q { link_id = link }) pending
]

-- The end of a round of `RetryPending`: the command goes out again on another link.
resend : String → PendingCommand → Option (ℕ × Link) → Manager → Manager
resend request_id p none m = m
resend request_id p (some (address, l)) m =
    if accepts m.store address (command p.command)
    then record m {
      store = modify address (λ x. increment_inflight (enqueue x (command p.command)).0) m.store;
      pending = relink request_id l.id m.pending;
    }
    else enqueue_at address (command p.command) m

-- The requests that were sent to the failed node.
unfoldable pub retry_ids : String → Map String PendingCommand → List String
retry_ids failed [] = []
retry_ids failed ((request_id, p) ∷ rest) =
    if p.link_id == failed then request_id ∷ retry_ids failed rest else retry_ids failed rest

module _ (hash : String → ℕ) (to_string : ℤ → String) where
  -- The first part of `Forward`, up to the unlock of `pendingMutex`: the address of the link that the
  -- command goes to, or none where `Forward` returns false.
  unfoldable pub forward_admit : ℕ → CommandEnvelope → Option ℕ → Manager → Manager × Option ℕ
  unfolding select_link
  forward_admit now c callback m =
      if is_empty c.request_id
      then (m, none)
      else if leb c.deadline_unix_ms now
      then (m, none)
      else elim (select_link hash to_string m c.conversation_id "") [
        | none ↦ (m, none)
        | some (address, l) ↦ elim (lookup c.request_id m.pending) [
          | some _ ↦ (m, none)
          | none ↦
              let p : PendingCommand = record {
                command = c;
                callback = callback;
                link_id = l.id;
                attempts = 0;
              } in
              (record m { pending = insert c.request_id p m.pending }, some address)
        ]
      ]

  retry_found : String → String → ℕ → PendingCommand → Manager → Manager
  unfolding resend relink
  retry_found failed request_id now p m =
      let p' = record p { attempts = p.attempts + 1 } in
      let m' = record m { pending = insert request_id p' m.pending } in
      if leb 1 p.attempts || not (can_retry_on_another_message_node p.command.service_id)
      then m
      else if ltb 0 p.command.deadline_unix_ms && leb p.command.deadline_unix_ms now
      then m'
      else resend request_id p' (select_link hash to_string m' p.command.conversation_id failed) m'

  unfoldable pub retry_one : String → ℕ → String → Manager → Manager
  unfolding retry_found select_link accepts can_retry_on_another_message_node
  retry_one failed now request_id m = elim (lookup request_id m.pending) [
    | none ↦ m
    | some p ↦ retry_found failed request_id now p m
  ]

  pub retry_each : String → ℕ → List String → Manager → Manager
  retry_each failed now [] m = m
  retry_each failed now (r ∷ rs) m = retry_each failed now rs (retry_one failed now r m)

  unfoldable pub retry_pending : String → ℕ → Manager → Manager
  unfolding retry_each retry_ids retry_one
  retry_pending failed now m = retry_each failed now (retry_ids failed m.pending) m
