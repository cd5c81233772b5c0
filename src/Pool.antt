-- ===== src/Pool.antt =====
-- server/public/src/ThreadPool.cc: the pool of business threads. A section under the mutex is one
-- function; a call that waits is the section at which its wait ends, and `waits` is the section that goes on
-- waiting.
pub mod History
use wim.Prelude.{
  Bool, List, Option, [], false, if◌then◌else◌, leb, length, max, none, some, true, ℕ, ◌++◌, ◌+◌,
  ◌-◌, ◌∷◌,
}

-- A task is named by a number; `deadline` is empty for Deadline::max().
pub record TaskEntry : Type 0 where
  pub task : ℕ
  pub deadline : Option ℕ

pub data PostStatus : Type 0 where
  accepted_task timed_out stopped_pool : PostStatus

-- `running` counts the workers between PopTask and the end of a round, `ended` those whose loop has
-- ended; `taken` are the entries that PopTask has handed out and `posted` those that PostUntil has
-- accepted, in order.
pub record ThreadPool : Type 0 where
  pub max_queue_size : ℕ
  pub worker_count : ℕ
  pub stopping : Bool
  pub queue : List TaskEntry
  pub submitted : ℕ
  pub completed : ℕ
  pub rejected : ℕ
  pub acquire_timeouts : ℕ
  pub expired : ℕ
  pub running : ℕ
  pub ended : ℕ
  pub taken : List TaskEntry
  pub posted : List TaskEntry

unfoldable pub new_pool : ℕ → ℕ → ThreadPool
new_pool worker_count max_queue_size = record {
  max_queue_size = max_queue_size;
  worker_count = max 1 worker_count;
  stopping = false;
  queue = [];
  submitted = 0;
  completed = 0;
  rejected = 0;
  acquire_timeouts = 0;
  expired = 0;
  running = 0;
  ended = 0;
  taken = [];
  posted = [];
}

-- `PostUntil` where it stops waiting: a full queue has then timed out. An empty std::function is `none`.
unfoldable pub post_until : Option TaskEntry → ThreadPool → ThreadPool × PostStatus
post_until none p = (p, stopped_pool)
post_until (some t) p =
    if p.stopping
    then (p, stopped_pool)
    else if leb p.max_queue_size (length p.queue)
    then (
      record p { rejected = p.rejected + 1; acquire_timeouts = p.acquire_timeouts + 1 },
      timed_out,
    )
    else (
      record p {
        queue = p.queue ++ (t ∷ []);
        submitted = p.submitted + 1;
        posted = p.posted ++ (t ∷ []);
      },
      accepted_task,
    )

unfoldable pub stop_pool : ThreadPool → ThreadPool
stop_pool p = record p { stopping = true }

pub data Popped : Type 0 where
  waits ends : Popped
  takes : TaskEntry → Popped

-- `PopTask` by an idle worker, and the end of its loop.
abbrev pub pop_first : List TaskEntry → ThreadPool → ThreadPool × Popped
pop_first [] p = if p.stopping then (record p { ended = p.ended + 1 }, ends) else (p, waits)
pop_first (t ∷ rest) p =
    (record p { queue = rest; running = p.running + 1; taken = p.taken ++ (t ∷ []) }, takes t)

unfoldable pub pop_task : ThreadPool → ThreadPool × Popped
pop_task p = pop_first p.queue p

-- `Clock::now() >= task.deadline`; the task is run all the same.
abbrev pub is_expired : ℕ → Option ℕ → Bool
is_expired now none = false
is_expired now (some deadline) = leb deadline now

unfoldable pub begin_task : ℕ → TaskEntry → ThreadPool → ThreadPool
begin_task now t p = if is_expired now t.deadline then record p { expired = p.expired + 1 } else p

-- After `task.task()`, whether or not it has thrown.
unfoldable pub complete_task : ThreadPool → ThreadPool
complete_task p = record p { completed = p.completed + 1; running = p.running - 1 }
