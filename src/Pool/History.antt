-- ===== src/Pool/History.antt =====
-- Every history of a pool: tasks start in the order in which they were accepted, and none is lost.
use wim.Prelude.{
  Bool-cases, List, Option, [], ap, append-nil, append_assoc, arith, if_elim, inl, inr, leb, length,
  length-append, ltb, ltb→lt, none, refl, some, sym, true, ℕ, ◌++◌, ◌+◌, ◌<◌, ◌∙◌, ◌∷◌, ◌≡◌, ◌≤◌,
  ◌⊎◌,
}
use wim.Pool.{
  Popped, PostStatus, TaskEntry, ThreadPool, begin_task, complete_task, is_expired, new_pool,
  pop_first, pop_task, post_until, stop_pool,
}

-- An idle worker is one that neither runs a task nor has ended.
pub data Step (p : ThreadPool) : ThreadPool → Type 0 where
  posts : (t : Option TaskEntry) → Step p (post_until t p).0
  stops : Step p (stop_pool p)
  pops : p.running + p.ended < p.worker_count → Step p (pop_task p).0
  begins : (now : ℕ) (t : TaskEntry) → Step p (begin_task now t p)
  completes : 0 < p.running → Step p (complete_task p)

pub data Run (p : ThreadPool) : ThreadPool → Type 0 where
  here : Run p p
  next : {q r : ThreadPool} → Run p q → Step q r → Run p r

abbrev Inv : ThreadPool → Type 0
Inv p =
    (p.taken ++ p.queue ≡ p.posted)
    × (length p.queue ≤ p.max_queue_size)
    × (p.submitted ≡ length p.posted)
    × (p.submitted ≡ p.completed + p.running + length p.queue)
    × (p.running + p.ended ≤ p.worker_count)
    × (0 < p.ended → p.stopping ≡ true)
    × (0 < p.ended → p.queue ≡ [])

new_pool-Inv : (w m : ℕ) → Inv (new_pool w m)
unfolding new_pool
new_pool-Inv w m = ground arith

post_until-Inv : (t : Option TaskEntry) (p : ThreadPool) → Inv p → Inv (post_until t p).0
unfolding post_until
post_until-Inv none p v = v
post_until-Inv (some t) p v =
    if_elim (λ (r : ThreadPool × PostStatus). Inv r.0) p.stopping (λ _. v)
      (λ live.
        if_elim (λ (r : ThreadPool × PostStatus). Inv r.0) (leb p.max_queue_size (length p.queue))
          (λ _. v)
          (λ room. (
            sym (append_assoc p.taken p.queue (t ∷ [])) ∙ ap (λ x. x ++ (t ∷ [])) v.0,
            ground (arith, length-append p.queue (t ∷ [])),
            ground (arith, length-append p.posted (t ∷ [])),
            ground (arith, length-append p.queue (t ∷ [])),
            v.4,
            v.5,
            (λ h. absurd (cc (sym live ∙ v.5 h))),
          )))

pop_first-Inv :
    (q : List TaskEntry) (p : ThreadPool)
    → p.queue ≡ q
    → p.running + p.ended < p.worker_count
    → Inv p
    → Inv (pop_first q p).0
pop_first-Inv [] p e h v =
    if_elim (λ (r : ThreadPool × Popped). Inv r.0) p.stopping
      (λ gone. (v.0, v.1, v.2, v.3, omega (arith, h), (λ _. gone), (λ _. e))) (λ _. v)
pop_first-Inv (t ∷ rest) p e h v = (
  append_assoc p.taken (t ∷ []) rest ∙ ap (λ x. p.taken ++ x) (sym e) ∙ v.0,
  omega (arith, v.1, ap length e),
  v.2,
  omega (arith, v.3, ap length e),
  omega (arith, h),
  v.5,
  (λ z. absurd (cc (sym e ∙ v.6 z))),
)

Step-Inv : {p q : ThreadPool} → Step p q → Inv p → Inv q
unfolding stop_pool pop_task begin_task complete_task
Step-Inv {p} (posts t) v = post_until-Inv t p v
Step-Inv {p} stops v = (v.0, v.1, v.2, v.3, v.4, (λ _. refl), v.6)
Step-Inv {p} (pops h) v = pop_first-Inv p.queue p refl h v
Step-Inv {p} (begins now t) v = if_elim Inv (is_expired now t.deadline) (λ _. v) (λ _. v)
Step-Inv {p} (completes h) v =
    (v.0, v.1, v.2, omega (arith, h, v.3), omega (arith, h, v.4), v.5, v.6)

Run-Inv : {p q : ThreadPool} → Run p q → Inv p → Inv q
Run-Inv here v = v
Run-Inv (next r s) v = Step-Inv s (Run-Inv r v)

post_until-size :
    (t : Option TaskEntry) (p : ThreadPool) → (post_until t p).0.max_queue_size ≡ p.max_queue_size
unfolding post_until
post_until-size none p = refl
post_until-size (some t) p = ground arith

pop_first-size :
    (q : List TaskEntry) (p : ThreadPool) → (pop_first q p).0.max_queue_size ≡ p.max_queue_size
pop_first-size [] p = ground arith
pop_first-size (t ∷ rest) p = refl

Step-size : {p q : ThreadPool} → Step p q → q.max_queue_size ≡ p.max_queue_size
unfolding stop_pool pop_task begin_task complete_task
Step-size {p} (posts t) = post_until-size t p
Step-size {p} stops = refl
Step-size {p} (pops h) = pop_first-size p.queue p
Step-size {p} (begins now t) = ground arith
Step-size {p} (completes h) = refl

Run-size : {p q : ThreadPool} → Run p q → q.max_queue_size ≡ p.max_queue_size
Run-size here = refl
Run-size (next r s) = Step-size s ∙ Run-size r

new_pool-size : (w m : ℕ) → (new_pool w m).max_queue_size ≡ m
unfolding new_pool
new_pool-size w m = refl

-- In every history of a pool: the tasks that workers have taken, followed by those in the queue, are the
-- accepted tasks in the order of acceptance; the queue holds at most as many tasks as its capacity; every
-- accepted task is completed, running or queued; and either no worker has ended, or the pool was stopped
-- and every accepted task has been taken.
pub pool_history :
    (workers capacity : ℕ) {p : ThreadPool}
    → Run (new_pool workers capacity) p
    → (p.taken ++ p.queue ≡ p.posted)
      × (length p.queue ≤ capacity)
      × (length p.posted ≡ p.completed + p.running + length p.queue)
      × ((p.ended ≡ 0) ⊎ ((p.stopping ≡ true) × (p.taken ≡ p.posted)))
pool_history workers capacity {p} r =
    let v = Run-Inv r (new_pool-Inv workers capacity) in
    (v.0, omega (arith, v.1, Run-size r, new_pool-size workers capacity), sym v.2 ∙ v.3, drained v)
  where
    drained : Inv p → (p.ended ≡ 0) ⊎ ((p.stopping ≡ true) × (p.taken ≡ p.posted))
    drained v = elim (Bool-cases (ltb 0 p.ended)) [
      | inr none_ended ↦ inl (ground arith)
      | inl some_ended ↦
          let h = ltb→lt 0 p.ended some_ended in
          inr (v.5 h, sym (append-nil p.taken) ∙ ap (λ x. p.taken ++ x) (sym (v.6 h)) ∙ v.0)
    ]
