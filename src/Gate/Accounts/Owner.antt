-- ===== src/Gate/Accounts/Owner.antt =====
-- Accounts change only for the holder of a verification code (signUp and forgetPassword of
-- server/gate/src/service/Service.cc).
use wim.Prelude.{
  ==_refl, ==→eq, Bool, List, Option, [], ap, arith, eqb, false, if_elim, inl, inr, int_eq, length,
  nat_eq, none, not, pos, refl, some, string_eq, true, ℕ, ◌&&◌, ◌==◌, ◌||◌, ◌∙◌, ◌≡◌, ◌⊎◌,
}
use wim.Gate.Accounts.{
  AccountAnswer, AccountRequest, Accounts, ServiceRequest, Surroundings, forget_checked,
  forget_found, forget_password, forget_request, serve, sign_up, sign_up_checked, sign_up_request,
  sign_up_with,
}
use wim.Gate.Email.{Email, email_eq, is_valid_email, normalize_email}
use wim.Gate.Users.{
  User, find_user, get_user, has_email, has_username, user_modify_password, user_register,
}
use wim.Gate.Users.Kept.{
  DistinctUids, Keeps, is_owner, others, user_modify_password-Keeps, user_register-Keeps,
}
use wim.Gate.Verification.{
  Code, Keys, Redis, Settings, consume_current, consume_script, consume_verification_code, ended,
  verify_and_consume,
}
use wim.Gateway.Lease.{Outcome, done, reply_lost, unreachable}
use wim.Message.Packet.{has}
use wim.Wire.Packet.{value_or}

abbrev pub fields : ServiceRequest → AccountRequest
fields (sign_up_request r) = r
fields (forget_request r) = r

-- The address of a request, and the code that it shows.
abbrev pub request_address : ServiceRequest → Email
request_address r = normalize_email (value_or [] (fields r).email)

abbrev pub shown_code : ServiceRequest → Code
shown_code r = value_or [] (fields r).verify_code

module _ (redis : Redis) (same : List ℕ → List ℕ → Bool) where
  -- The code was the address's, and is gone.
  abbrev pub Spends : Email → Code → Keys redis → Keys redis → Type 0
  Spends e code k k' = (redis.codes.get e k.code ≡ some code) × (redis.codes.get e k'.code ≡ none)

  deleted : (e : Email) (s : redis.codes.State) → redis.codes.get e (redis.codes.del e s) ≡ none
  deleted e s = redis.codes.get-del e e s ∙ (rw (==_refl e) refl)

  abbrev SpendsIf : Email → Code → Keys redis → Keys redis × Bool → Type 0
  SpendsIf e code k r = r.1 ≡ true → Spends e code k r.0

  consume_current-SpendsIf :
      (o : Option Code) (e : Email) (code : Code) (limit : ℕ) (k : Keys redis)
      → redis.codes.get e k.code ≡ o
      → SpendsIf e code k (consume_current redis o e code limit k)
  consume_current-SpendsIf none e code limit k there = λ yes. absurd (cc yes)
  consume_current-SpendsIf (some current) e code limit k there =
      if_elim (SpendsIf e code k) (current == code)
        (λ right. λ yes. (there ∙ ap some (==→eq current code right), deleted e k.code))
        (λ _. λ yes. absurd (cc yes))

  ended-SpendsIf :
      (o : Outcome) (e : Email) (code : Code) (k : Keys redis) (r : Keys redis × Bool)
      → SpendsIf e code k r
      → SpendsIf e code k (ended redis o false k r)
  ended-SpendsIf done e code k r h = h
  ended-SpendsIf unreachable e code k r h = λ yes. absurd (cc yes)
  ended-SpendsIf reply_lost e code k r h = λ yes. absurd (cc yes)

  verify_and_consume-SpendsIf :
      (cfg : Settings) (o : Outcome) (e : Email) (code : Code) (k : Keys redis)
      → SpendsIf (normalize_email e) code k (verify_and_consume redis cfg o e code k)
  unfolding verify_and_consume consume_verification_code consume_script
  verify_and_consume-SpendsIf cfg o e code k =
      let key : Email = normalize_email e in
      if_elim (SpendsIf key code k) (not (is_valid_email key) || not (eqb (length code) 6))
        (λ _. λ yes. absurd (cc yes))
        (λ _.
          if_elim (SpendsIf key code k)
            (eqb (length key) 0 || eqb (length code) 0 || eqb cfg.max_attempts 0)
            (λ _. λ yes. absurd (cc yes))
            (λ _. ended-SpendsIf o key code k _ (
              consume_current-SpendsIf (redis.codes.get key k.code) key code cfg.max_attempts k
                refl)))

  -- What a request leaves: distinct ids, and the same users, or a code spent and nobody else touched.
  abbrev Safe : Email → Code → Accounts redis same → Accounts redis same × AccountAnswer → Type 0
  Safe e code a r =
      DistinctUids r.0.users
      × ((r.0.users ≡ a.users)
          ⊎ (Spends (normalize_email e) code a.keys r.0.keys
              × (others e r.0.users ≡ others e a.users)))

  sign_up_checked-Safe :
      (env : Surroundings) (name word : List ℕ) (e : Email) (code : Code) (a : Accounts redis same)
      (r : Keys redis × Bool)
      → DistinctUids a.users
      → SpendsIf (normalize_email e) code a.keys r
      → Safe e code a (sign_up_checked redis same env name word e a.users r)
  sign_up_checked-Safe env name word e code a (k, false) d spent = (d, inl refl)
  sign_up_checked-Safe env name word e code a (k, true) d spent =
      let user : User = record {
        id = env.next_id;
        uid = env.next_uid;
        username = name;
        password = word;
        email = e;
        create_time = env.now;
      } in
      let kept : Keeps same e a.users (user_register same env.write user a.users).0 =
        user_register-Keeps same e env.write user a.users d (rw (==_refl e) refl) in
      (kept.0, inr (spent refl, kept.1))

  sign_up_with-Safe :
      (cfg : Settings) (env : Surroundings) (name word : List ℕ) (e : Email) (code : Code)
      (a : Accounts redis same)
      → DistinctUids a.users
      → Safe e code a (sign_up_with redis same cfg env name word e code a)
  unfolding sign_up_with
  sign_up_with-Safe cfg env name word e code a d =
      if_elim (Safe e code a) (eqb (length name) 0 || eqb (length word) 0 || not (is_valid_email e))
        (λ _. (d, inl refl))
        (λ _.
          if_elim (Safe e code a) (not (has_email same env.email_read e a.users == pos 0))
            (λ _. (d, inl refl))
            (λ _.
              if_elim (Safe e code a) (not (has_username same env.user_read name a.users == pos 0))
                (λ _. (d, inl refl))
                (λ _.
                  sign_up_checked-Safe env name word e code a
                    (verify_and_consume redis cfg env.code e code a.keys) d
                    (verify_and_consume-SpendsIf cfg env.code e code a.keys))))

  forget_checked-Safe :
      (env : Surroundings) (name word : List ℕ) (e : Email) (code : Code) (user : User)
      (a : Accounts redis same) (r : Keys redis × Bool)
      → DistinctUids a.users
      → is_owner e user ≡ true
      → find_user same name a.users ≡ some user
      → SpendsIf (normalize_email e) code a.keys r
      → Safe e code a (forget_checked redis same env name word user a.users r)
  forget_checked-Safe env name word e code user a (k, false) d own found spent = (d, inl refl)
  forget_checked-Safe env name word e code user a (k, true) d own found spent =
      let kept : Keeps same e a.users
          (user_modify_password same env.write (record user { password = word }) a.users).0 =
        user_modify_password-Keeps same e env.write name word user a.users d own found in
      (kept.0, inr (spent refl, kept.1))

  available_found :
      (name : List ℕ) (user : User) (us : List User) (available : Bool)
      → get_user same available name us ≡ some user
      → find_user same name us ≡ some user
  available_found name user us true h = h
  available_found name user us false h = absurd (cc h)

  forget_found-Safe :
      (cfg : Settings) (env : Surroundings) (name word : List ℕ) (e : Email) (code : Code)
      (o : Option User) (a : Accounts redis same)
      → DistinctUids a.users
      → get_user same env.user_read name a.users ≡ o
      → Safe e code a (forget_found redis same cfg env name word e code o a)
  unfolding forget_found
  forget_found-Safe cfg env name word e code none a d found = (d, inl refl)
  forget_found-Safe cfg env name word e code (some user) a d found =
      if_elim (Safe e code a) (not (normalize_email user.email == e)) (λ _. (d, inl refl))
        (λ same_address.
          if_elim (Safe e code a) (eqb (length word) 0) (λ _. (d, inl refl))
            (λ _.
              forget_checked-Safe env name word e code user a
                (verify_and_consume redis cfg env.code e code a.keys) d
                (ground (arith, same_address))
                (available_found name user a.users env.user_read found)
                (verify_and_consume-SpendsIf cfg env.code e code a.keys)))

  -- A request for a new account or a new password keeps the ids of the users distinct. Either it leaves the
  -- table users as it is, or the code that it shows was the stored one of the request's address and is
  -- gone after it, and the users with other addresses are the same in the same order.
  pub accounts_need_code :
      (cfg : Settings) (env : Surroundings) (r : ServiceRequest) (a : Accounts redis same)
      → DistinctUids a.users
      → DistinctUids (serve redis same cfg env r a).0.users
        × (((serve redis same cfg env r a).0.users ≡ a.users)
            ⊎ (Spends
                  (normalize_email (request_address r))
                  (shown_code r)
                  a.keys
                  (serve redis same cfg env r a).0.keys
                × (others (request_address r) (serve redis same cfg env r a).0.users
                    ≡ others (request_address r) a.users)))
  unfolding sign_up forget_password
  accounts_need_code cfg env (sign_up_request r) a d =
      if_elim (Safe (request_address (sign_up_request r)) (shown_code (sign_up_request r)) a)
        (has r.username && has r.password && has r.email && has r.verify_code)
        (λ _.
          sign_up_with-Safe cfg env (value_or [] r.username) (value_or [] r.password)
            (request_address (sign_up_request r)) (shown_code (sign_up_request r)) a d)
        (λ _. (d, inl refl))
  accounts_need_code cfg env (forget_request r) a d =
      if_elim (Safe (request_address (forget_request r)) (shown_code (forget_request r)) a)
        (has r.username && has r.password && has r.email && has r.verify_code)
        (λ _.
          forget_found-Safe cfg env (value_or [] r.username) (value_or [] r.password)
            (request_address (forget_request r)) (shown_code (forget_request r))
            (get_user same env.user_read (value_or [] r.username) a.users) a d refl)
        (λ _. (d, inl refl))
