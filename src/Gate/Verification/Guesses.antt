-- ===== src/Gate/Verification/Guesses.antt =====
-- A code is used at most once, and how many guesses there are before it is gone (the scripts of
-- server/public/include/Redis.h).
use mathlib.Core.Path.{subst}
use wim.Prelude.{
  ==_refl, All, Bool, Bool-cases, List, [], ap, arith, drop, false, if_elim, if◌then◌else◌, inl,
  inr, int_eq, leb, nat_eq, none, pos, refl, some, string_eq, suc, true, zero, ℕ, ◌+◌, ◌-◌, ◌<◌,
  ◌==◌, ◌∙◌, ◌∷◌, ◌≡◌, ◌≤◌,
}
use wim.Gate.Email.{Email, email_eq}
use wim.Gate.Verification.{Code, Keys, Redis, consume_script, count_attempt, del_all, issue_script}
use wim.Message.Packet.{has}
use wim.Wire.Packet.{value_or}

-- What can happen to an address between two issues: a guess, or a key runs out. The counter of the attempts
-- has an expiry of its own, in whole seconds, and may run out before the code.
pub data CodeEvent : Type 0 where
  guess : Code → CodeEvent
  code_lapses attempts_lapse : CodeEvent

module _ (redis : Redis) (e : Email) (limit : ℕ) where
  -- The answers to the guesses among the events, in order.
  unfoldable pub guess_all : List CodeEvent → Keys redis → List Bool
  guess_all [] k = []
  guess_all (guess code ∷ gs) k =
      (consume_script redis e code limit k).1 ∷ guess_all gs (consume_script redis e code limit k).0
  guess_all (code_lapses ∷ gs) k = guess_all gs (record k { code = redis.codes.lapse e k.code })
  guess_all (attempts_lapse ∷ gs) k =
      guess_all gs (record k { attempt = redis.attempts.lapse e k.attempt })

  -- The limit, and once more the limit for each time that the counter runs out.
  abbrev pub allowance : List CodeEvent → ℕ
  allowance [] = limit
  allowance (guess code ∷ gs) = allowance gs
  allowance (code_lapses ∷ gs) = allowance gs
  allowance (attempts_lapse ∷ gs) = limit + allowance gs

  abbrev pub hits : List Bool → ℕ
  hits [] = 0
  hits (true ∷ rs) = 1 + hits rs
  hits (false ∷ rs) = hits rs

  abbrev pub IsMiss : Bool → Type 0
  IsMiss r = r ≡ false

  hits-misses : (rs : List Bool) → All IsMiss rs → hits rs ≡ 0
  hits-misses [] a = refl
  hits-misses (true ∷ rs) a = absurd (cc a.0)
  hits-misses (false ∷ rs) a = hits-misses rs a.1

  All-drop : (n : ℕ) (rs : List Bool) → All IsMiss rs → All IsMiss (drop n rs)
  All-drop zero rs a = a
  All-drop (suc n) [] a = tt
  All-drop (suc n) (r ∷ rs) a = All-drop n rs a.1

  abbrev IsGone : Keys redis → Type 0
  IsGone k = redis.codes.get e k.code ≡ none

  deleted : (s : redis.codes.State) → redis.codes.get e (redis.codes.del e s) ≡ none
  deleted s = redis.codes.get-del e e s ∙ (rw (==_refl e) refl)

  lapsed : (s : redis.codes.State) → redis.codes.get e (redis.codes.lapse e s) ≡ none
  lapsed s = redis.codes.get-lapse e e s ∙ (rw (==_refl e) refl)

  no_counter :
      (s : redis.attempts.State) → value_or 0 (redis.attempts.get e (redis.attempts.lapse e s)) ≡ 0
  no_counter s =
      let gone : redis.attempts.get e (redis.attempts.lapse e s) ≡ none =
        redis.attempts.get-lapse e e s ∙ (rw (==_refl e) refl) in
      ap (value_or 0) gone

  written :
      (ttl : ℕ) (code : Code) (s : redis.codes.State)
      → redis.codes.get e (redis.codes.setex e ttl code s) ≡ some code
  written ttl code s = redis.codes.get-setex e e ttl code s ∙ (rw (==_refl e) refl)

  no_attempts :
      (s : redis.attempts.State) → value_or 0 (redis.attempts.get e (redis.attempts.del e s)) ≡ 0
  no_attempts s =
      let gone : redis.attempts.get e (redis.attempts.del e s) ≡ none =
        redis.attempts.get-del e e s ∙ (rw (==_refl e) refl) in
      ap (value_or 0) gone

  -- Without a code every guess misses.
  misses : (gs : List CodeEvent) (k : Keys redis) → IsGone k → All IsMiss (guess_all gs k)
  unfolding guess_all consume_script
  misses [] k gone = tt
  misses (guess code ∷ gs) k gone = rw gone (refl, misses gs k gone)
  misses (code_lapses ∷ gs) k gone =
      misses gs (record k { code = redis.codes.lapse e k.code }) (lapsed k.code)
  misses (attempts_lapse ∷ gs) k gone =
      misses gs (record k { attempt = redis.attempts.lapse e k.attempt }) gone

  abbrev Bounded : ℕ → List Bool → Type 0
  Bounded budget rs = (hits rs ≤ 1) × All IsMiss (drop budget rs)

  -- With a code and some wrong guesses behind it.
  abbrev IsLive : ℕ → Keys redis → Type 0
  IsLive n k = (value_or 0 (redis.attempts.get e k.attempt) ≡ n) × (n < limit)

  right-Bounded :
      (budget : ℕ) (rs : List Bool) → 0 < budget → All IsMiss rs → Bounded budget (true ∷ rs)
  right-Bounded zero rs h a = absurd (omega (arith, h))
  right-Bounded (suc budget) rs h a = (omega (arith, hits-misses rs a), All-drop budget rs a)

  gone-Bounded : (budget : ℕ) (rs : List Bool) → All IsMiss rs → Bounded budget (false ∷ rs)
  gone-Bounded budget rs a =
      (omega (arith, hits-misses rs a), All-drop budget (false ∷ rs) (refl, a))

  later-Bounded :
      (n total : ℕ) (rs : List Bool)
      → n < total
      → Bounded (total - (n + 1)) rs
      → Bounded (total - n) (false ∷ rs)
  later-Bounded n total rs h b =
      let step : total - n ≡ suc (total - (n + 1)) = omega (arith, h) in rw step (b.0, b.1)

  drop_more : (a b : ℕ) (rs : List Bool) → a ≤ b → All IsMiss (drop a rs) → All IsMiss (drop b rs)
  drop_more zero b rs h m = All-drop b rs m
  drop_more (suc a) zero rs h m = absurd (omega (arith, h))
  drop_more (suc a) (suc b) [] h m = tt
  drop_more (suc a) (suc b) (r ∷ rs) h m = drop_more a b rs (omega (arith, h)) m

  limit_le_allowance : (gs : List CodeEvent) → limit ≤ allowance gs
  limit_le_allowance [] = omega arith
  limit_le_allowance (guess code ∷ gs) = limit_le_allowance gs
  limit_le_allowance (code_lapses ∷ gs) = limit_le_allowance gs
  limit_le_allowance (attempts_lapse ∷ gs) = omega (arith, limit_le_allowance gs)

  -- A wrong guess: the counter says one more, and the code stays until the limit.
  counted :
      (timed : Bool) (k : Keys redis) (m seconds : ℕ)
      → value_or 0 (
          redis.attempts.get e (
            if timed
            then redis.attempts.expire e seconds (redis.attempts.keep e m k.attempt)
            else redis.attempts.keep e m k.attempt))
        ≡ m
  counted timed k m seconds =
      let kept : redis.attempts.get e (redis.attempts.keep e m k.attempt) ≡ some m =
        redis.attempts.get-keep e e m k.attempt ∙ (rw (==_refl e) refl) in
      if_elim (λ s. value_or 0 (redis.attempts.get e s) ≡ m) timed
        (λ _.
          ap (value_or 0)
            (redis.attempts.get-expire e e seconds (redis.attempts.keep e m k.attempt) ∙ kept))
        (λ _. ap (value_or 0) kept)

  wrong :
      (n total : ℕ) (k : Keys redis) (code : Code) (rest : Keys redis → List Bool)
      → IsLive n k
      → limit ≤ total
      → redis.codes.get e k.code ≡ some code
      → ((j : Keys redis) → IsGone j → All IsMiss (rest j))
      → ((j : Keys redis)
          → IsLive (n + 1) j
          → redis.codes.get e j.code ≡ some code
          → Bounded (total - (n + 1)) (rest j))
      → Bounded (total - n) (false ∷ rest (count_attempt redis e limit k))
  unfolding count_attempt
  wrong n total k code rest live large there gone on =
      if_elim (λ (j : Keys redis). Bounded (total - n) (false ∷ rest j))
        (leb limit (value_or 0 (redis.attempts.get e k.attempt) + 1))
        (λ _. gone-Bounded (total - n) (rest _) (gone _ (deleted k.code)))
        (λ room.
          let more : n + 1 < limit = ground (arith, room, live.0) in
          later-Bounded n total (rest _) (omega (arith, more, large))
            (on _ (counted _ k _ (redis.codes.ttl e k.code) ∙ ap (λ x. x + 1) live.0, more) there))

  guesses-Bounded :
      (gs : List CodeEvent) (n : ℕ) (k : Keys redis) (code : Code)
      → IsLive n k
      → redis.codes.get e k.code ≡ some code
      → Bounded (allowance gs - n) (guess_all gs k)
  unfolding guess_all consume_script
  guesses-Bounded [] n k code live there = (omega arith, All-drop (limit - n) [] tt)
  guesses-Bounded (code_lapses ∷ gs) n k code live there =
      let missed : All IsMiss (guess_all gs (record k { code = redis.codes.lapse e k.code })) =
        misses gs (record k { code = redis.codes.lapse e k.code }) (lapsed k.code) in
      (omega (arith, hits-misses _ missed), All-drop (allowance gs - n) _ missed)
  guesses-Bounded (attempts_lapse ∷ gs) n k code live there =
      let later : Keys redis = record k { attempt = redis.attempts.lapse e k.attempt } in
      let anew : Bounded (allowance gs - 0) (guess_all gs later) =
        guesses-Bounded gs 0 later code (no_counter k.attempt, omega (arith, live.1)) there in
      (
        anew.0,
        drop_more (allowance gs - 0) ((limit + allowance gs) - n) (guess_all gs later)
            (omega (arith, live.1)) anew.1,
      )
  guesses-Bounded (guess tried ∷ gs) n k code live there = elim (Bool-cases (code == tried)) [
    | inl right ↦
        rw (there, right)
          (right-Bounded (allowance gs - n) _ (omega (arith, live.1, limit_le_allowance gs))
            (misses gs (del_all redis e k) (deleted k.code)))
    | inr other ↦
        rw (there, other)
          (wrong n (allowance gs) k code (guess_all gs) live (limit_le_allowance gs) there
            (misses gs) (λ j live' there'. guesses-Bounded gs (n + 1) j code live' there'))
  ]

  -- After a code has been issued for an address, with a limit of one guess or more, and until the next
  -- issue, whichever keys run out between the guesses: of all guesses at most one succeeds, and after as many guesses as the limit, and as many
  -- again for each time that the counter of attempts runs out, every further guess fails.
  pub guesses_bounded :
      (code : Code) (ttl cooldown : ℕ) (k : Keys redis) (gs : List CodeEvent)
      → 0 < limit
      → (issue_script redis e code ttl cooldown k).1 ≡ pos 1
      → (hits (guess_all gs (issue_script redis e code ttl cooldown k).0) ≤ 1)
        × All IsMiss
            (drop (allowance gs) (guess_all gs (issue_script redis e code ttl cooldown k).0))
  unfolding issue_script
  guesses_bounded code ttl cooldown k gs h ok =
      let all_left : allowance gs - 0 ≡ allowance gs = omega arith in
      elim (Bool-cases (has (redis.cooldowns.get e k.cooldown))) [
        | inl cool ↦ absurd (cc (rw cool at ok))
        | inr free ↦ rw free (
            subst
              (λ budget. Bounded budget (
                guess_all gs (record {
                  code = redis.codes.setex e ttl code k.code;
                  attempt = redis.attempts.del e k.attempt;
                  cooldown = redis.cooldowns.setex e cooldown tt k.cooldown;
                })))
              all_left
              (guesses-Bounded gs 0 _ code (no_attempts k.attempt, h) (written ttl code k.code)))
      ]
