-- ===== src/Gate/Verification.antt =====
-- Verification codes: the scripts of server/public/include/Redis.h and VerificationService
-- (server/gate/src/service/VerificationService.cc). Redis is the section's parameter: three families of keys,
-- im:verify:{email}:code, :attempts and :cooldown.
pub mod Guesses
use wim.Prelude.{
  Bool, List, Option, [], eqb, false, if◌then◌else◌, int_eq, leb, length, ltb, nat_eq, negsuc, none,
  not, pos, some, string_eq, suc, true, zero, ℕ, ℤ, ◌&&◌, ◌++◌, ◌+◌, ◌-◌, ◌==◌, ◌||◌, ◌∷◌, ◌≡◌,
}
use wim.Gate.Email.{Email, email_eq, is_valid_email, normalize_email}
use wim.Gateway.Lease.{Outcome, done, reply_lost, unreachable}
use wim.Message.Packet.{has}
use wim.Protocol.{ErrorCodes, dependency_unavailable, email_not_match, error_value, success}
use wim.State.{active}
use wim.Wire.Packet.{value_or}

-- The characters of a code.
abbrev pub Code : Type 0
Code = List ℕ

abbrev zeros : ℕ → Code
zeros zero = []
zeros (suc n) = b'0' ∷ zeros n

-- GenerateCode: `digits` is std::to_string of the number that is drawn, at most 999999.
unfoldable pub generate_code : List ℕ → Code
generate_code digits = zeros (6 - length digits) ++ digits

-- One family of keys, with what Redis documents of its commands. `keep` writes and leaves the expiry of
-- the key alone, as INCR does; `lapse` is that the key runs out.
pub record Column (V : Type 0) : Type 1 where
  pub State : Type 0
  pub get : Email → State → Option V
  pub setex : Email → ℕ → V → State → State
  pub keep : Email → V → State → State
  pub expire : Email → ℕ → State → State
  pub del : Email → State → State
  pub ttl : Email → State → ℕ
  pub lapse : Email → State → State
  pub get-setex :
      (e k : Email) (seconds : ℕ) (v : V) (s : State)
      → get k (setex e seconds v s) ≡ (if e == k then some v else get k s)
  pub get-keep :
      (e k : Email) (v : V) (s : State) → get k (keep e v s) ≡ (if e == k then some v else get k s)
  pub get-expire : (e k : Email) (seconds : ℕ) (s : State) → get k (expire e seconds s) ≡ get k s
  pub get-lapse : (e k : Email) (s : State) → get k (lapse e s) ≡ (if e == k then none else get k s)
  pub get-del : (e k : Email) (s : State) → get k (del e s) ≡ (if e == k then none else get k s)

pub record Redis : Type 1 where
  pub codes : Column Code
  pub attempts : Column ℕ
  pub cooldowns : Column (Unit {0})

-- VerificationService's settings.
pub record Settings : Type 0 where
  pub code_ttl_seconds : ℕ
  pub resend_cooldown_seconds : ℕ
  pub max_attempts : ℕ
  pub email_enabled : Bool
  pub expose_code : Bool

-- VerificationCodeIssue
pub record CodeIssue : Type 0 where
  pub error : ℕ
  pub issued : Bool
  pub development_code : Code

abbrev pub refused_issue : ErrorCodes → CodeIssue
refused_issue code = record { error = error_value code; issued = false; development_code = [] }

module _ (redis : Redis) where
  pub record Keys : Type 0 where
    pub code : redis.codes.State
    pub attempt : redis.attempts.State
    pub cooldown : redis.cooldowns.State

  abbrev pub del_all : Email → Keys → Keys
  del_all e k = record {
    code = redis.codes.del e k.code;
    attempt = redis.attempts.del e k.attempt;
    cooldown = redis.cooldowns.del e k.cooldown;
  }

  -- The script of issueVerificationCode.
  unfoldable pub issue_script : Email → Code → ℕ → ℕ → Keys → Keys × ℤ
  issue_script e code ttl cooldown k =
      if has (redis.cooldowns.get e k.cooldown) then (k, pos 0) else (
        record {
          code = redis.codes.setex e ttl code k.code;
          attempt = redis.attempts.del e k.attempt;
          cooldown = redis.cooldowns.setex e cooldown tt k.cooldown;
        },
        pos 1,
      )

  -- INCR of the attempts, EXPIRE with the first one, and DEL when there have been enough.
  unfoldable pub count_attempt : Email → ℕ → Keys → Keys
  count_attempt e limit k =
      let n = value_or 0 (redis.attempts.get e k.attempt) + 1 in
      let counted = redis.attempts.keep e n k.attempt in
      let ttl = redis.codes.ttl e k.code in
      let timed = if eqb n 1 && ltb 0 ttl then redis.attempts.expire e ttl counted else counted in
      if leb limit n
      then record k { code = redis.codes.del e k.code; attempt = redis.attempts.del e timed }
      else record k { attempt = timed }

  abbrev pub consume_current : Option Code → Email → Code → ℕ → Keys → Keys × Bool
  consume_current none e code limit k = (k, false)
  consume_current (some current) e code limit k =
      if current == code then (del_all e k, true) else (count_attempt e limit k, false)

  -- The script of consumeVerificationCode.
  unfoldable pub consume_script : Email → Code → ℕ → Keys → Keys × Bool
  consume_script e code limit k = consume_current (redis.codes.get e k.code) e code limit k

  abbrev pub clear_current : Option Code → Email → Code → Keys → Keys × Bool
  clear_current none e code k = (k, false)
  clear_current (some current) e code k =
      if current == code then (del_all e k, true) else (k, false)

  -- `executeTemplate`: `d` is `defaultForType`.
  abbrev pub ended {ℓ} : {A : Type ℓ} → Outcome → A → Keys → Keys × A → Keys × A
  ended done d k r = r
  ended unreachable d k r = (k, d)
  ended reply_lost d k (k', a) = (k', d)

  unfoldable pub issue_verification_code : Outcome → Email → Code → ℕ → ℕ → Keys → Keys × ℤ
  issue_verification_code o e code ttl cooldown k =
      if eqb (length e) 0 || eqb (length code) 0 || eqb ttl 0 || eqb cooldown 0
      then (k, negsuc 0)
      else ended o (negsuc 0) k (issue_script e code ttl cooldown k)

  unfoldable pub consume_verification_code : Outcome → Email → Code → ℕ → Keys → Keys × Bool
  consume_verification_code o e code limit k =
      if eqb (length e) 0 || eqb (length code) 0 || eqb limit 0
      then (k, false)
      else ended o false k (consume_script e code limit k)

  unfoldable pub get_verification_code : Outcome → Email → Keys → Code
  get_verification_code o e k =
      if eqb (length e) 0 then [] else (ended o [] k (k, value_or [] (redis.codes.get e k.code))).1

  unfoldable pub clear_verification_code : Outcome → Email → Code → Keys → Keys × Bool
  clear_verification_code o e code k =
      if eqb (length e) 0 || eqb (length code) 0
      then (k, false)
      else ended o false k (clear_current (redis.codes.get e k.code) e code k)

  -- The part of RequestEmailCode behind the issue; `delivered` is what SendEmail answers.
  abbrev pub issued_answer :
      Settings → Outcome → Outcome → Bool → Email → Code → Keys × ℤ → Keys × CodeIssue
  issued_answer cfg read clear delivered e code (k, negsuc n) =
      (k, refused_issue dependency_unavailable)
  issued_answer cfg read clear delivered e code (k, pos n) =
      let new = eqb n 1 in
      let active = if not new && cfg.expose_code then get_verification_code read e k else code in
      if new && cfg.email_enabled && not delivered
      then (
        (clear_verification_code clear e code k).0,
        record (refused_issue dependency_unavailable) { issued = true },
      )
      else (
        k,
        record {
          error = error_value success;
          issued = new;
          development_code = if cfg.expose_code then active else [];
        },
      )

  -- `code` is what GenerateCode draws.
  unfoldable pub request_email_code :
      Settings → Outcome → Outcome → Outcome → Bool → Code → Email → Keys → Keys × CodeIssue
  request_email_code cfg issue read clear delivered code raw k =
      let e = normalize_email raw in
      if not (is_valid_email e)
      then (k, refused_issue email_not_match)
      else if not cfg.email_enabled && not cfg.expose_code
      then (k, refused_issue dependency_unavailable)
      else issued_answer cfg read clear delivered e code
          (issue_verification_code issue e code cfg.code_ttl_seconds cfg.resend_cooldown_seconds k)

  unfoldable pub verify_and_consume : Settings → Outcome → Email → Code → Keys → Keys × Bool
  verify_and_consume cfg o raw code k =
      let e = normalize_email raw in
      if not (is_valid_email e) || not (eqb (length code) 6)
      then (k, false)
      else consume_verification_code o e code cfg.max_attempts k
