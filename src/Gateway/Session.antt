-- ===== src/Gateway/Session.antt =====
-- The class GatewaySession of server/gateway/src/GatewaySession.cc: one client connection. A call of
-- `SendRaw` from any thread is one function; what it posts to the strand waits in `posted`, in order.
-- The coroutine WriteLoop is cut at its co_await: `loop` says where it stands. A clock reading is an
-- argument of the call that makes it, in milliseconds.
pub mod Packets
pub mod Login
pub mod Reading
pub mod Queue
pub mod Reliable
pub mod Rate
pub mod Gate
pub mod History
use wim.Prelude.{
  Bool, List, Option, String, [], false, if◌then◌else◌, int_eq, is_positive, leb, ltb, nat_eq, none,
  not, pos, some, string_eq, true, ℕ, ℤ, ◌&&◌, ◌++◌, ◌+◌, ◌-◌, ◌∷◌,
}
use wim.Gateway.Lease.{SessionLease, empty_lease}
use wim.Prelude.Map.{Map, erase, insert, lookup}
use wim.Wire.{encode_frame}

pub record ReliableWrite : Type 0 where
  pub packet : List ℕ
  pub protocol_id : ℕ
  pub attempts : ℕ

-- What the session has posted to its strand.
pub data Task : Type 0 where
  push_frame : List ℕ → Task
  keep_reliable : List ℕ → ℕ → ℤ → Task
  close_task : Task

-- No WriteLoop runs, one is spawned or running, one awaits its async_write.
pub data WriteLoop : Type 0 where
  absent_loop spawned_loop awaiting_loop : WriteLoop

-- `written` is what async_write has been called with and `accepted` the frames for which `SendRaw` has
-- returned true, both in order.
pub record GatewaySession : Type 0 where
  pub connection_id : String
  pub user_id : ℤ
  pub lease : SessionLease
  pub closed : Bool
  pub queued_writes : ℕ
  pub request_sequence : ℕ
  pub write_queue : List (List ℕ)
  pub write_active : Bool
  pub close_after_write : Bool
  pub reliable_writes : Map ℤ ReliableWrite
  pub last_lease_refresh : ℕ
  pub rate_window_started : ℕ
  pub commands_in_rate_window : ℕ
  pub posted : List Task
  pub loop : WriteLoop
  pub written : List (List ℕ)
  pub accepted : List (List ℕ)

unfoldable pub new_session : String → ℕ → GatewaySession
new_session connection_id now = record {
  connection_id = connection_id;
  user_id = pos 0;
  lease = empty_lease;
  closed = false;
  queued_writes = 0;
  request_sequence = 0;
  write_queue = [];
  write_active = false;
  close_after_write = false;
  reliable_writes = [];
  last_lease_refresh = 0;
  rate_window_started = now;
  commands_in_rate_window = 0;
  posted = [];
  loop = absent_loop;
  written = [];
  accepted = [];
}

abbrev pub max_queued_writes : ℕ
max_queued_writes = 10240

abbrev pub post : Task → GatewaySession → GatewaySession
post t s = record s { posted = s.posted ++ (t ∷ []) }

unfoldable pub close : GatewaySession → GatewaySession
close s = post close_task s

-- `CloseInContext`, which leaves the queue as it is.
unfoldable pub close_in_context : GatewaySession → GatewaySession
close_in_context s = if s.closed then s else record s { closed = true; reliable_writes = [] }

unfoldable pub send_raw : List ℕ → ℕ → GatewaySession → GatewaySession × Bool
unfolding close encode_frame
send_raw packet protocol_id s =
    if s.closed
    then (s, false)
    else if ltb max_queued_writes (s.queued_writes + 1)
    then (close s, false)
    else (
      post (push_frame (encode_frame protocol_id packet)) (record s {
        queued_writes = s.queued_writes + 1;
        accepted = s.accepted ++ (encode_frame protocol_id packet ∷ []);
      }),
      true,
    )

unfoldable pub send_reliable : List ℕ → ℕ → ℤ → GatewaySession → GatewaySession × Bool
unfolding send_raw
send_reliable packet protocol_id ack_seq s =
    let sent = send_raw packet protocol_id s in
    if not (is_positive ack_seq)
    then sent
    else if sent.1
    then (post (keep_reliable packet protocol_id ack_seq) sent.0, true)
    else (sent.0, false)

-- A task of the strand. `ArmReliableWrite` starts a timer, which `on_timer` answers.
unfoldable pub run_task : Task → GatewaySession → GatewaySession
unfolding close_in_context
run_task (push_frame bytes) s =
    if s.closed
    then record s { queued_writes = s.queued_writes - 1 }
    else if s.write_active
    then record s { write_queue = s.write_queue ++ (bytes ∷ []) }
    else record s {
      write_queue = s.write_queue ++ (bytes ∷ []);
      write_active = true;
      loop = spawned_loop;
    }
run_task (keep_reliable packet protocol_id ack_seq) s = record s {
  reliable_writes =
      insert ack_seq (record { packet = packet; protocol_id = protocol_id; attempts = 1 })
        s.reliable_writes;
}
run_task close_task s = close_in_context s

abbrev pub run_first : List Task → GatewaySession → GatewaySession
run_first [] s = s
run_first (t ∷ rest) s = run_task t (record s { posted = rest })

unfoldable pub run_posted : GatewaySession → GatewaySession
unfolding run_task
run_posted s = run_first s.posted s

-- `writeQueue.empty()`
abbrev pub is_drained : List (List ℕ) → Bool
is_drained [] = true
is_drained (f ∷ fs) = false

-- The end of WriteLoop.
unfoldable pub leave_loop : GatewaySession → GatewaySession
unfolding close_in_context
leave_loop s =
    let s' = record s { write_active = false; loop = absent_loop } in
    if s.close_after_write && is_drained s.write_queue then close_in_context s' else s'

-- The head of the while loop of WriteLoop: the next async_write, or the end.
abbrev pub write_first : List (List ℕ) → GatewaySession → GatewaySession
write_first [] s = leave_loop s
write_first (bytes ∷ rest) s =
    if s.closed
    then leave_loop s
    else record s { loop = awaiting_loop; written = s.written ++ (bytes ∷ []) }

unfoldable pub continue_loop : GatewaySession → GatewaySession
unfolding leave_loop
continue_loop s = write_first s.write_queue s

abbrev pub tail : List (List ℕ) → List (List ℕ)
tail [] = []
tail (f ∷ fs) = fs

-- What WriteLoop does after async_write; `ok` is false where `ec` is set.
unfoldable pub on_written : Bool → GatewaySession → GatewaySession
unfolding continue_loop leave_loop close_in_context
on_written ok s =
    let s' = record s {
      write_queue = tail s.write_queue;
      queued_writes = s.queued_writes - 1;
      loop = spawned_loop;
    } in
    if ok then continue_loop s' else leave_loop (close_in_context s')

-- The timer of a reliable write, where it ran out and was not cancelled.
abbrev pub resend : ℤ → Option ReliableWrite → GatewaySession → GatewaySession
resend ack_seq none s = s
resend ack_seq (some write) s =
    if leb 3 write.attempts
    then record s { reliable_writes = erase ack_seq s.reliable_writes }
    else let tried = record s {
      reliable_writes =
          insert ack_seq (record write { attempts = write.attempts + 1 }) s.reliable_writes;
    } in
      let sent = send_raw write.packet write.protocol_id tried in
      if sent.1
      then sent.0
      else record sent.0 { reliable_writes = erase ack_seq sent.0.reliable_writes }

unfoldable pub on_timer : ℤ → GatewaySession → GatewaySession
unfolding send_raw
on_timer ack_seq s = resend ack_seq (lookup ack_seq s.reliable_writes) s

unfoldable pub acknowledge_transport : ℤ → GatewaySession → GatewaySession
acknowledge_transport ack_seq s = record s { reliable_writes = erase ack_seq s.reliable_writes }
