-- ===== src/Gate/SignIn/Handover.antt =====
-- What signIn of server/gate/src/service/Service.cc leaves for the Gateway's login.
use mathlib.Core.Path.{subst}
use wim.Prelude.{
  ==_refl, Bool, List, Option, arith, eqb, false, if_elim, int_eq, length, nat_eq, none, not, refl,
  some, string_eq, sym, true, ℕ, ◌==◌, ◌||◌, ◌∙◌, ◌≡◌,
}
use wim.Client.MessageList.Forward.{reached}
use wim.Gate.Email.{email_eq}
use wim.Gate.SignIn.{
  SignInAnswer, SignInSurroundings, Tokens, chat_auth_token_ttl_seconds, is_bad_uid, is_empty_node,
  set_chat_auth_token, sign_in_user, token_answer, token_stored, validate_chat_auth_token,
}
use wim.Gate.Users.{User}
use wim.Gateway.Lease.{Outcome, done, reply_lost, unreachable}

module _ (tokens : Tokens) where
  -- The token opens a login of the user, and nobody else's logins are different.
  abbrev Opens : ℕ → List ℕ → ℕ → List ℕ → tokens.State → tokens.State → Type 0
  Opens u token v other s s' =
      (validate_chat_auth_token tokens u token s' ≡ true)
      × (validate_chat_auth_token tokens v other s' ≡ validate_chat_auth_token tokens v other s)

  -- A SETEX of another user's token.
  setex_other :
      (u v ttl : ℕ) (token : List ℕ) (s : tokens.State)
      → u == v ≡ false
      → tokens.get v (tokens.setex u ttl token s) ≡ tokens.get v s
  setex_other u v ttl token s differs = tokens.get-setex u v ttl token s ∙ (rw differs refl)

  setex_own :
      (u ttl : ℕ) (token : List ℕ) (s : tokens.State)
      → tokens.get u (tokens.setex u ttl token s) ≡ some token
  setex_own u ttl token s = tokens.get-setex u u ttl token s ∙ (rw (==_refl u) refl)

  setex-Opens :
      (o : Outcome) (u : ℕ) (token : List ℕ) (ttl v : ℕ) (other : List ℕ) (s : tokens.State)
      → u == v ≡ false
      → (is_bad_uid u || eqb (length token) 0) ≡ false
      → (token_stored tokens o s (tokens.setex u ttl token s)).1 ≡ true
      → Opens u token v other s (token_stored tokens o s (tokens.setex u ttl token s)).0
  unfolding validate_chat_auth_token
  setex-Opens done u token ttl v other s differs good ok = (
    rw (good, setex_own u ttl token s, ==_refl token) refl,
    rw (setex_other u v ttl token s differs) refl,
  )
  setex-Opens unreachable u token ttl v other s differs good ok = absurd (cc ok)
  setex-Opens reply_lost u token ttl v other s differs good ok = absurd (cc ok)

  stored-Opens :
      (o : Outcome) (u : ℕ) (token : List ℕ) (ttl v : ℕ) (other : List ℕ) (s : tokens.State)
      → u == v ≡ false
      → (set_chat_auth_token tokens o u token ttl s).1 ≡ true
      → Opens u token v other s (set_chat_auth_token tokens o u token ttl s).0
  unfolding set_chat_auth_token
  stored-Opens o u token ttl v other s differs =
      if_elim (λ (r : tokens.State × Bool). r.1 ≡ true → Opens u token v other s r.0)
        (is_bad_uid u || eqb (length token) 0 || eqb ttl 0) (λ _. λ ok. absurd (cc ok))
        (λ good. setex-Opens o u token ttl v other s differs (ground (arith, good)))

  abbrev HandsOver :
      SignInSurroundings → ℕ → ℕ → List ℕ → tokens.State → tokens.State × SignInAnswer → Type 0
  HandsOver env u v other s r =
      r.1.uid ≡ some u → (is_empty_node (env.pick u) ≡ false) × Opens u env.token v other s r.0

  token_answer-HandsOver :
      (env : SignInSurroundings) (user : User) (u v : ℕ) (other : List ℕ) (s : tokens.State)
      (r : tokens.State × Bool)
      → is_empty_node (env.pick user.uid) ≡ false
      → (user.uid ≡ u → r.1 ≡ true → Opens u env.token v other s r.0)
      → HandsOver env u v other s (token_answer tokens env user r)
  token_answer-HandsOver env user u v other s (s', false) reached grants = λ h. absurd (cc h)
  token_answer-HandsOver env user u v other s (s', true) reached grants = λ h.
      let named : user.uid ≡ u = cc h in
      (subst (λ n. is_empty_node (env.pick n) ≡ false) named reached, grants named refl)

  -- If a sign-in names a user, the State service has picked a Gateway with an address, and the token of the
  -- answer opens a login of that user; the logins of every other user are answered as before it.
  sign_in_hands_over :
      (env : SignInSurroundings) (word : List ℕ) (o : Option User) (u v : ℕ) (other : List ℕ)
      (s : tokens.State)
      → u == v ≡ false
      → (sign_in_user tokens env word o s).1.uid ≡ some u
      → (is_empty_node (env.pick u) ≡ false)
        × Opens u env.token v other s (sign_in_user tokens env word o s).0
  unfolding sign_in_user
  sign_in_hands_over env word none u v other s differs = λ h. absurd (cc h)
  sign_in_hands_over env word (some user) u v other s differs =
      if_elim (HandsOver env u v other s) (not (user.password == word)) (λ _. λ h. absurd (cc h))
        (λ _.
          if_elim (HandsOver env u v other s) (is_empty_node (env.pick user.uid))
            (λ _. λ h. absurd (cc h))
            (λ reached.
              token_answer-HandsOver env user u v other s
                (set_chat_auth_token tokens env.stored user.uid env.token
                  chat_auth_token_ttl_seconds s)
                reached
                (λ named.
                  subst
                    (λ n.
                      (set_chat_auth_token tokens env.stored n env.token chat_auth_token_ttl_seconds
                          s).1
                        ≡ true
                      → Opens u env.token v other s
                          (set_chat_auth_token tokens env.stored n env.token
                            chat_auth_token_ttl_seconds s).0)
                    (sym named)
                    (stored-Opens env.stored u env.token chat_auth_token_ttl_seconds v other s
                      differs))))
