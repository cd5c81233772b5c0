-- ===== src/Examples/Services.antt =====
-- Runs of the thread pool, of the State service and of the client's message list.
use wim.Prelude.{
  List, String, [], arith, length, none, pos, some, true, ◌++◌, ◌+◌, ◌∷◌, ◌≡◌, ◌≤◌, ◌⊎◌,
}
use wim.Client.MessageList.{
  MessageListModel, MessageRecord, accepted_state, pending_local, waiting_accept,
}
use wim.Client.MessageList.Forward.{
  RowsAdvance, Update, appends, apply_all, messages_advance, updates,
}
use wim.Pool.{TaskEntry, ThreadPool, complete_task, new_pool, pop_task, post_until, stop_pool}
use wim.Pool.History.{Run, completes, here, next, pool_history, pops, posts, stops}
use wim.State.{ServiceNodeInfo, StateService, pick_connection_gateway}
use wim.State.Routing.{Answers, pick_connection_gateway_lem}

abbrev entry : TaskEntry
entry = record { task = 1; deadline = none }

-- One worker takes a task and completes it, and ends after the pool was stopped.
pool-Run :
    Run
      (new_pool 1 2)
      (pop_task
        (stop_pool (complete_task (pop_task (post_until (some entry) (new_pool 1 2)).0).0))).0
unfolding new_pool post_until pop_task complete_task stop_pool
pool-Run =
    next
      (next
        (next (next (next here (posts (some entry))) (pops (omega arith)))
          (completes (omega arith)))
        stops)
      (pops (omega arith))

abbrev pool_end : ThreadPool
pool_end =
    (pop_task (stop_pool (complete_task (pop_task (post_until (some entry) (new_pool 1 2)).0).0))).0

pool_history_example :
    (pool_end.taken ++ pool_end.queue ≡ pool_end.posted)
    × (length pool_end.queue ≤ 2)
    × (length pool_end.posted ≡ pool_end.completed + pool_end.running + length pool_end.queue)
    × ((pool_end.ended ≡ 0) ⊎ ((pool_end.stopping ≡ true) × (pool_end.taken ≡ pool_end.posted)))
pool_history_example = pool_history 1 2 pool-Run

abbrev gateway : String → ServiceNodeInfo
gateway status = record { id = "g"; host = "h"; port = 80; status = status; weight = 1 }

abbrev state_service : StateService
state_service = record {
  gateway_nodes = gateway "backup" ∷ gateway "active" ∷ [];
  message_nodes = [];
  topology_version = 1;
  gateway_route_count = 0;
  im_nodes = [];
  im_route_count = 0;
  backup_route_count = 0;
}

pick_connection_gateway_lem_example :
    Answers state_service.gateway_nodes (pick_connection_gateway state_service).1
pick_connection_gateway_lem_example = pick_connection_gateway_lem state_service (omega arith)

abbrev message : MessageRecord
message = record {
  client_message_id = pos 1;
  message_id = none;
  conversation_seq = none;
  sender_id = "a";
  body = "b";
  timestamp = "";
  outgoing = true;
  delivery_state = waiting_accept;
}

abbrev messages : MessageListModel
messages = record { records = message ∷ []; unread_separator_index = none }

abbrev news : List Update
news = updates (pos 1) accepted_state ∷ updates (pos 1) pending_local ∷ appends message ∷ []

messages_advance_example : RowsAdvance messages.records (apply_all news messages).records
messages_advance_example = messages_advance news messages
