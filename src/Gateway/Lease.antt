-- ===== src/Gateway/Lease.antt =====
-- The session leases of RedisDao (server/public/include/Redis.h): who holds a user's connection. The Lua
-- scripts are the repository's; the commands that they call are Redis's, taken as the interface
-- `Redis` with their documented effect. A key is a prefix and a user id; the value of a lease key is
-- the lease that the script encodes. Generations stay below 10^14, where Lua's `tostring` still
-- prints every digit.
pub mod Fencing
use wim.Prelude.{
  Bool, Option, String, eqb, false, if◌then◌else◌, int_eq, is_empty, is_positive, nat_eq, negsuc,
  none, not, pos, some, string_eq, true, ℕ, ℤ, ◌&&◌, ◌+◌, ◌==◌, ◌||◌, ◌≡◌, ◌⊎◌,
}

pub record SessionLease : Type 0 where
  pub gateway_id : String
  pub instance_id : String
  pub connection_id : String
  pub generation : ℤ

abbrev pub empty_lease : SessionLease
empty_lease = record { gateway_id = ""; instance_id = ""; connection_id = ""; generation = pos 0 }

-- `SessionLease::empty`
unfoldable pub lease_is_empty : SessionLease → Bool
lease_is_empty l =
    is_empty l.gateway_id
    || is_empty l.instance_id
    || is_empty l.connection_id
    || not (is_positive l.generation)

-- The comparison of the two scripts, field by field.
unfoldable pub same_lease : SessionLease → SessionLease → Bool
same_lease a b =
    a.gateway_id == b.gateway_id
    && a.instance_id == b.instance_id
    && a.connection_id == b.connection_id
    && a.generation == b.generation

-- The counters and the leases of users. `elapse` is the passing of time, in which leases run out.
pub record Redis : Type 1 where
  pub State : Type 0
  pub counter : ℤ → State → ℕ
  pub get : ℤ → State → Option SessionLease
  pub incr : ℤ → State → State
  pub setex : ℤ → ℕ → SessionLease → State → State
  pub expire : ℤ → ℕ → State → State
  pub del : ℤ → State → State
  pub elapse : State → State
  pub counter-incr :
      (u v : ℤ) (s : State)
      → counter v (incr u s) ≡ (if u == v then counter v s + 1 else counter v s)
  pub get-incr : (u v : ℤ) (s : State) → get v (incr u s) ≡ get v s
  pub counter-setex :
      (u v : ℤ) (ttl : ℕ) (l : SessionLease) (s : State) → counter v (setex u ttl l s) ≡ counter v s
  pub get-setex :
      (u v : ℤ) (ttl : ℕ) (l : SessionLease) (s : State)
      → get v (setex u ttl l s) ≡ (if u == v then some l else get v s)
  pub counter-expire : (u v : ℤ) (ttl : ℕ) (s : State) → counter v (expire u ttl s) ≡ counter v s
  pub get-expire : (u v : ℤ) (ttl : ℕ) (s : State) → get v (expire u ttl s) ≡ get v s
  pub counter-del : (u v : ℤ) (s : State) → counter v (del u s) ≡ counter v s
  pub get-del : (u v : ℤ) (s : State) → get v (del u s) ≡ (if u == v then none else get v s)
  pub counter-elapse : (v : ℤ) (s : State) → counter v (elapse s) ≡ counter v s
  pub get-elapse : (v : ℤ) (s : State) → (get v (elapse s) ≡ get v s) ⊎ (get v (elapse s) ≡ none)

-- How `executeTemplate` ends: with the script's value, with no connection, or with an error after the
-- script has run, where the caller gets the default value all the same.
pub data Outcome : Type 0 where
  done unreachable reply_lost : Outcome

module _ (redis : Redis) where
  -- The three scripts.
  bind_script : ℤ → String → String → String → ℕ → redis.State → redis.State × ℤ
  bind_script uid gateway_id instance_id connection_id ttl s =
      let s1 = redis.incr uid s in
      let generation = pos (redis.counter uid s1) in
      (
        redis.setex uid ttl
            (record {
              gateway_id = gateway_id;
              instance_id = instance_id;
              connection_id = connection_id;
              generation = generation;
            })
            s1,
        generation,
      )

  refresh_script : ℤ → SessionLease → ℕ → redis.State → redis.State × Bool
  refresh_script uid l ttl s = elim (redis.get uid s) [
    | none ↦ (s, false)
    | some held ↦ if same_lease held l then (redis.expire uid ttl s, true) else (s, false)
  ]

  clear_script : ℤ → SessionLease → redis.State → redis.State × Bool
  clear_script uid l s = elim (redis.get uid s) [
    | none ↦ (s, true)
    | some held ↦ if same_lease held l then (redis.del uid s, true) else (s, false)
  ]

  -- `executeTemplate`: `d` is `defaultForType`.
  abbrev execute {ℓ} : {A : Type ℓ} → Outcome → A → redis.State → redis.State × A → redis.State × A
  execute done d s r = r
  execute unreachable d s r = (s, d)
  execute reply_lost d s (s', a) = (s', d)

  unfoldable pub bind_session_lease :
      Outcome → ℤ → String → String → String → ℕ → redis.State → redis.State × ℤ
  unfolding bind_script
  bind_session_lease o uid gateway_id instance_id connection_id ttl s =
      if not (is_positive uid)
        || is_empty gateway_id
        || is_empty instance_id
        || is_empty connection_id
        || eqb ttl 0
      then (s, negsuc 0)
      else execute o (negsuc 0) s (bind_script uid gateway_id instance_id connection_id ttl s)

  unfoldable pub refresh_session_lease :
      Outcome → ℤ → SessionLease → ℕ → redis.State → redis.State × Bool
  unfolding refresh_script same_lease lease_is_empty
  refresh_session_lease o uid l ttl s =
      if not (is_positive uid) || lease_is_empty l || eqb ttl 0
      then (s, false)
      else execute o false s (refresh_script uid l ttl s)

  unfoldable pub clear_session_lease : Outcome → ℤ → SessionLease → redis.State → redis.State × Bool
  unfolding clear_script same_lease lease_is_empty
  clear_session_lease o uid l s =
      if not (is_positive uid) || lease_is_empty l
      then (s, false)
      else execute o false s (clear_script uid l s)
