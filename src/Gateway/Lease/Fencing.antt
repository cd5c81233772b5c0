-- ===== src/Gateway/Lease/Fencing.antt =====
-- A newer login fences the older one.
use wim.Prelude.{
  ==_cases, ==_refl, ==→eq, Bool, Bool-cases, Option, Option-cases, String, arith, eqb, false,
  if◌then◌else◌, inl, inr, int_eq, is_empty, is_positive, nat_eq, negsuc, none, not, pos, refl,
  some, string_eq, true, ℕ, ℤ, ◌+◌, ◌<◌, ◌==◌, ◌||◌, ◌∙◌, ◌≡◌, ◌≢◌, ◌≤◌,
}
use wim.Gateway.Lease.{
  Outcome, Redis, SessionLease, bind_script, bind_session_lease, clear_script, clear_session_lease,
  done, execute, lease_is_empty, refresh_script, refresh_session_lease, reply_lost, same_lease,
  unreachable,
}

same_lease-eq : (a b : SessionLease) → same_lease a b ≡ true → a.generation ≡ b.generation
unfolding same_lease
same_lease-eq a b h = ==→eq a.generation b.generation (ground arith)

abbrev NotHeld : ℕ → Option SessionLease → Type 0
NotHeld n none = Unit {0}
NotHeld n (some l) = l.generation ≢ pos n

module _ (redis : Redis) where
  -- What the calls of all Gateways, and time, can do to the store.
  pub data LeaseStep (s : redis.State) : redis.State → Type 0 where
    binds :
        (o : Outcome) (uid : ℤ) (g i c : String) (ttl : ℕ)
        → LeaseStep s (bind_session_lease redis o uid g i c ttl s).0
    refreshes :
        (o : Outcome) (uid : ℤ) (l : SessionLease) (ttl : ℕ)
        → LeaseStep s (refresh_session_lease redis o uid l ttl s).0
    clears :
        (o : Outcome) (uid : ℤ) (l : SessionLease)
        → LeaseStep s (clear_session_lease redis o uid l s).0
    elapses : LeaseStep s (redis.elapse s)

  pub data LeaseRun (s : redis.State) : redis.State → Type 0 where
    stay : LeaseRun s s
    go_on : {t u : redis.State} → LeaseRun s t → LeaseStep t u → LeaseRun s u

  -- The generation `n` of a user is past: the counter has gone beyond it, and no lease has it.
  pub record Past (uid : ℤ) (n : ℕ) (s : redis.State) : Type 0 where
    pub beyond : n < redis.counter uid s
    pub not_held : NotHeld n (redis.get uid s)

  bind_script-Past :
      (s : redis.State) (uid u : ℤ) (n : ℕ) (g i c : String) (ttl : ℕ)
      → n ≤ redis.counter uid s
      → (u ≢ uid → Past uid n s)
      → Past uid n (bind_script redis u g i c ttl s).0
  unfolding bind_script
  bind_script-Past s uid u n g i c ttl counted p = elim (==_cases u uid) [
    | inl (t, same) ↦
        let e : redis.counter u (redis.incr u s) ≡ redis.counter u s + 1 =
          redis.counter-incr u u s ∙ (rw (==_refl u) refl) in
        let counted' : n ≤ redis.counter u s = rw same counted in
        rw (← same) (record {
          beyond = rw (redis.counter-setex, e) (omega arith);
          not_held = rw (redis.get-setex, ==_refl u) (λ q. absurd (newer e counted' q));
        })
    | inr (f, differ) ↦
        let e : redis.counter uid (redis.incr u s) ≡ redis.counter uid s =
          redis.counter-incr u uid s ∙ (rw f refl) in
        record {
          beyond = rw (redis.counter-setex, e) (p differ).beyond;
          not_held = rw (redis.get-setex, f, redis.get-incr) (p differ).not_held;
        }
  ]
    where
      newer :
          redis.counter u (redis.incr u s) ≡ redis.counter u s + 1
          → n ≤ redis.counter u s
          → pos (redis.counter u (redis.incr u s)) ≡ pos n
          → ⊥
      newer e h q = ground arith

  execute-keeps :
      {A : Type 0} (P : redis.State → Type 0) (o : Outcome) (d : A) (s : redis.State)
      (r : redis.State × A)
      → P s
      → P r.0
      → P (execute redis o d s r).0
  execute-keeps P done d s r a b = b
  execute-keeps P unreachable d s r a b = a
  execute-keeps P reply_lost d s r a b = b

  refresh_script-Past :
      (s : redis.State) (uid u : ℤ) (n : ℕ) (l : SessionLease) (ttl : ℕ)
      → Past uid n s
      → Past uid n (refresh_script redis u l ttl s).0
  unfolding refresh_script
  refresh_script-Past s uid u n l ttl p = elim (Option-cases (redis.get u s)) [
    | inl e ↦ rw (e, refresh_script) p
    | inr (held, e) ↦ elim (Bool-cases (same_lease held l)) [
      | inl t ↦
          rw (e, t, refresh_script)
            (record {
              beyond = rw redis.counter-expire p.beyond;
              not_held = rw redis.get-expire p.not_held;
            })
      | inr f ↦ rw (e, f, refresh_script) p
    ]
  ]

  del-Past : (s : redis.State) (uid u : ℤ) (n : ℕ) → Past uid n s → Past uid n (redis.del u s)
  del-Past s uid u n p = elim (Bool-cases (u == uid)) [
    | inl t ↦ record { beyond = rw redis.counter-del p.beyond; not_held = rw (redis.get-del, t) tt }
    | inr f ↦ record {
      beyond = rw redis.counter-del p.beyond;
      not_held = rw (redis.get-del, f) p.not_held;
    }
  ]

  clear_script-Past :
      (s : redis.State) (uid u : ℤ) (n : ℕ) (l : SessionLease)
      → Past uid n s
      → Past uid n (clear_script redis u l s).0
  unfolding clear_script
  clear_script-Past s uid u n l p = elim (Option-cases (redis.get u s)) [
    | inl e ↦ rw (e, clear_script) p
    | inr (held, e) ↦ elim (Bool-cases (same_lease held l)) [
      | inl t ↦ rw (e, t, clear_script) (del-Past s uid u n p)
      | inr f ↦ rw (e, f, clear_script) p
    ]
  ]

  elapse-Past : (s : redis.State) (uid : ℤ) (n : ℕ) → Past uid n s → Past uid n (redis.elapse s)
  elapse-Past s uid n p = elim (redis.get-elapse uid s) [
    | inl same ↦ record { beyond = rw redis.counter-elapse p.beyond; not_held = rw same p.not_held }
    | inr gone ↦ record { beyond = rw redis.counter-elapse p.beyond; not_held = rw gone tt }
  ]

  step-Past : {s t : redis.State} (uid : ℤ) (n : ℕ) → LeaseStep s t → Past uid n s → Past uid n t
  unfolding bind_session_lease refresh_session_lease clear_session_lease
  step-Past {s} uid n (binds o u g i c ttl) p =
      elim (Bool-cases
        (not (is_positive u) || is_empty g || is_empty i || is_empty c || eqb ttl 0)) [
          | inl bad ↦ rw bad p
          | inr good ↦ rw good (
              execute-keeps (Past uid n) o (negsuc 0) s (bind_script redis u g i c ttl s) p (
                bind_script-Past s uid u n g i c ttl (let b = p.beyond in omega arith)
                  (λ differ. p)))
        ]
  step-Past {s} uid n (refreshes o u l ttl) p =
      elim (Bool-cases (not (is_positive u) || lease_is_empty l || eqb ttl 0)) [
        | inl bad ↦ rw bad p
        | inr good ↦ rw good (
            execute-keeps (Past uid n) o false s (refresh_script redis u l ttl s) p
              (refresh_script-Past s uid u n l ttl p))
      ]
  step-Past {s} uid n (clears o u l) p =
      elim (Bool-cases (not (is_positive u) || lease_is_empty l)) [
        | inl bad ↦ rw bad p
        | inr good ↦ rw good (
            execute-keeps (Past uid n) o false s (clear_script redis u l s) p
              (clear_script-Past s uid u n l p))
      ]
  step-Past {s} uid n elapses p = elapse-Past s uid n p

  run-Past : {s t : redis.State} (uid : ℤ) (n : ℕ) → LeaseRun s t → Past uid n s → Past uid n t
  run-Past uid n stay p = p
  run-Past uid n (go_on r st) p = step-Past uid n st (run-Past uid n r p)

  different-lease :
      (uid : ℤ) (l : SessionLease) (n : ℕ) (s : redis.State)
      → l.generation ≡ pos n
      → Past uid n s
      → (held : SessionLease) → redis.get uid s ≡ some held
      → same_lease held l ≡ false
  different-lease uid l n s g p held e = elim (Bool-cases (same_lease held l)) [
    | inl t ↦
        absurd
          ((let q : NotHeld n (some held) = rw e at p.not_held in q) (same_lease-eq held l t ∙ g))
    | inr f ↦ f
  ]

  Past-refresh :
      (o : Outcome) (uid : ℤ) (l : SessionLease) (ttl n : ℕ) (s : redis.State)
      → l.generation ≡ pos n
      → Past uid n s
      → refresh_session_lease redis o uid l ttl s ≡ (s, false)
  unfolding refresh_session_lease refresh_script
  Past-refresh o uid l ttl n s g p = elim (Option-cases (redis.get uid s)) [
    | inl e ↦ rw (e, refresh_script) (both o)
    | inr (held, e) ↦ rw (e, different-lease uid l n s g p held e, refresh_script) (both o)
  ]
    where
      both :
          (x : Outcome)
          → (if not (is_positive uid) || lease_is_empty l || eqb ttl 0
              then (s, false)
              else execute redis x false s (s, false))
            ≡ (s, false)
      both done = ground arith
      both unreachable = ground arith
      both reply_lost = ground arith

  Past-clear :
      (o : Outcome) (uid : ℤ) (l : SessionLease) (n : ℕ) (s : redis.State)
      → l.generation ≡ pos n
      → Past uid n s
      → (clear_session_lease redis o uid l s).0 ≡ s
  unfolding clear_session_lease clear_script
  Past-clear o uid l n s g p = elim (Option-cases (redis.get uid s)) [
    | inl e ↦ rw (e, clear_script) (both o true)
    | inr (held, e) ↦ rw (e, different-lease uid l n s g p held e, clear_script) (both o false)
  ]
    where
      both :
          (x : Outcome) (b : Bool)
          → (if not (is_positive uid) || lease_is_empty l
              then (s, false)
              else execute redis x false s (s, b)).0
            ≡ s
      both done b = ground arith
      both unreachable b = ground arith
      both reply_lost b = ground arith

  bind-Past :
      (o : Outcome) (uid : ℤ) (g i c : String) (ttl n k : ℕ) (s : redis.State)
      → n ≤ redis.counter uid s
      → (bind_session_lease redis o uid g i c ttl s).1 ≡ pos k
      → Past uid n (bind_session_lease redis o uid g i c ttl s).0
  unfolding bind_session_lease
  bind-Past o uid g i c ttl n k s h e =
      elim (Bool-cases
        (not (is_positive uid) || is_empty g || is_empty i || is_empty c || eqb ttl 0)) [
          | inl bad ↦ cc (rw bad at e)
          | inr good ↦ rw good (succeeded o (rw good at e))
        ]
    where
      succeeded :
          (x : Outcome)
          → (execute redis x (negsuc 0) s (bind_script redis uid g i c ttl s)).1 ≡ pos k
          → Past uid n (execute redis x (negsuc 0) s (bind_script redis uid g i c ttl s)).0
      succeeded done q = bind_script-Past s uid uid n g i c ttl h (λ differ. absurd (differ refl))
      succeeded unreachable q = cc
      succeeded reply_lost q = cc

  -- Once a bind of a user has succeeded, every lease of that user from before it is fenced for good:
  -- whatever any Gateway binds, refreshes and clears afterwards, and however time passes, a refresh
  -- with the old lease returns false, and neither it nor a clear with the old lease changes anything.
  pub old_lease_fenced :
      (o o' : Outcome) (uid : ℤ) (g i c : String) (ttl ttl' n k : ℕ) (old : SessionLease)
      (s : redis.State) {t : redis.State}
      → old.generation ≡ pos n
      → n ≤ redis.counter uid s
      → (bind_session_lease redis o uid g i c ttl s).1 ≡ pos k
      → LeaseRun (bind_session_lease redis o uid g i c ttl s).0 t
      → (refresh_session_lease redis o' uid old ttl' t ≡ (t, false))
        × ((clear_session_lease redis o' uid old t).0 ≡ t)
  old_lease_fenced o o' uid g i c ttl ttl' n k old s {t} e h b r =
      let p = run-Past uid n r (bind-Past o uid g i c ttl n k s h b) in
      (Past-refresh o' uid old ttl' n t e p, Past-clear o' uid old n t e p)
