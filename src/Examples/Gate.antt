-- ===== src/Examples/Gate.antt =====
-- A Redis of functions, and guesses at a verification code.
use wim.Prelude.{
  All, List, Option, [], arith, drop, false, if◌then◌else◌, int_eq, nat_eq, none, pos, refl, some,
  string_eq, true, ℕ, ◌==◌, ◌∷◌, ◌≡◌, ◌≤◌, ◌⊎◌,
}
use wim.Gate.Accounts.{
  Accounts, ServiceRequest, Surroundings, forget_found, forget_password, forget_request, serve,
}
use wim.Gate.Accounts.Owner.{Spends, accounts_need_code, request_address, shown_code}
use wim.Gate.Email.{
  Email, drop_spaces, email_eq, find_from, find_last, has_forbidden, is_space, is_valid_email,
  normalize_email, same_bytes, to_lower,
}
use wim.Gate.Users.{User, find_user, has_row, set_password, user_modify_password}
use wim.Gate.Users.Kept.{DistinctUids, others}
use wim.Gate.Verification.{
  Code, Column, Keys, Redis, Settings, consume_script, consume_verification_code, count_attempt,
  issue_script, verify_and_consume,
}
use wim.Gate.Verification.Guesses.{
  CodeEvent, IsMiss, allowance, attempts_lapse, guess, guess_all, guesses_bounded, hits,
}
use wim.Gateway.Lease.{done}

-- Nothing runs out in it.
abbrev column : (V : Type 0) → Column V
column V = record {
  State = Email → Option V;
  get = λ e s. s e;
  setex = λ e seconds v s k. if e == k then some v else s k;
  keep = λ e v s k. if e == k then some v else s k;
  expire = λ e seconds s. s;
  del = λ e s k. if e == k then none else s k;
  ttl = λ e s. 180;
  lapse = λ e s k. if e == k then none else s k;
  get-setex = λ e k seconds v s. refl;
  get-keep = λ e k v s. refl;
  get-expire = λ e k seconds s. refl;
  get-lapse = λ e k s. refl;
  get-del = λ e k s. refl;
}

abbrev memory : Redis
memory = record { codes = column Code; attempts = column ℕ; cooldowns = column (Unit {0}) }

abbrev fresh : Keys memory
fresh = record { code = λ e. none; attempt = λ e. none; cooldown = λ e. none }

abbrev address : Email
address = b'a' ∷ b'@' ∷ b'b' ∷ b'.' ∷ b'c' ∷ []

abbrev drawn : Code
drawn = b'0' ∷ b'0' ∷ b'0' ∷ b'1' ∷ b'2' ∷ b'3' ∷ []

abbrev guesses : List CodeEvent
guesses = guess (b'9' ∷ []) ∷ guess drawn ∷ guess drawn ∷ []

abbrev two_wrong : List CodeEvent
two_wrong = guess (b'9' ∷ []) ∷ guess (b'8' ∷ []) ∷ guess drawn ∷ []

-- The counter runs out between two wrong guesses.
abbrev counter_lost : List CodeEvent
counter_lost = guess (b'9' ∷ []) ∷ attempts_lapse ∷ guess (b'8' ∷ []) ∷ guess drawn ∷ []

-- A wrong guess, then the right one, once; two wrong guesses where two are allowed, and the same with a
-- counter that runs out.
once :
    guess_all memory address 5 guesses (issue_script memory address drawn 180 60 fresh).0
    ≡ false ∷ true ∷ false ∷ []
unfolding guess_all issue_script consume_script count_attempt
once = refl

used_up :
    guess_all memory address 2 two_wrong (issue_script memory address drawn 180 60 fresh).0
    ≡ false ∷ false ∷ false ∷ []
unfolding guess_all issue_script consume_script count_attempt
used_up = refl

begun_anew :
    guess_all memory address 2 counter_lost (issue_script memory address drawn 180 60 fresh).0
    ≡ false ∷ false ∷ true ∷ []
unfolding guess_all issue_script consume_script count_attempt
begun_anew = refl

issue_ok : (issue_script memory address drawn 180 60 fresh).1 ≡ pos 1
unfolding issue_script
issue_ok = refl

guesses_bounded_example :
    (hits memory address 2
        (guess_all memory address 2 counter_lost (issue_script memory address drawn 180 60 fresh).0)
      ≤ 1)
    × All (IsMiss memory address 2) (
        drop (allowance memory address 2 counter_lost) (
          guess_all memory address 2 counter_lost
            (issue_script memory address drawn 180 60 fresh).0))
guesses_bounded_example =
    guesses_bounded memory address 2 drawn 180 60 fresh counter_lost (omega arith) issue_ok

-- Ada has an account, asks for a code and then for a new password.
abbrev ada : User
ada = record {
  id = 1;
  uid = 7;
  username = b'a' ∷ [];
  password = b'x' ∷ [];
  email = address;
  create_time = [];
}

abbrev accounts : Accounts memory same_bytes
accounts = record { keys = (issue_script memory address drawn 180 60 fresh).0; users = ada ∷ [] }

abbrev settings : Settings
settings = record {
  code_ttl_seconds = 180;
  resend_cooldown_seconds = 60;
  max_attempts = 5;
  email_enabled = true;
  expose_code = false;
}

abbrev all_well : Surroundings
all_well = record {
  email_read = true;
  user_read = true;
  code = done;
  write = done;
  next_id = 2;
  next_uid = 8;
  now = [];
}

abbrev new_password : ServiceRequest
new_password = forget_request (record {
  username = some (b'a' ∷ []);
  password = some (b'y' ∷ []);
  email = some address;
  verify_code = some drawn;
})

changed_password :
    (serve memory same_bytes settings all_well new_password accounts).0.users
    ≡ record ada { password = b'y' ∷ [] } ∷ []
unfolding forget_password forget_found find_user verify_and_consume consume_verification_code
    consume_script user_modify_password has_row set_password normalize_email is_valid_email
    issue_script drop_spaces is_space to_lower find_from find_last has_forbidden
changed_password = refl

accounts_need_code_example :
    DistinctUids (serve memory same_bytes settings all_well new_password accounts).0.users
    × (((serve memory same_bytes settings all_well new_password accounts).0.users ≡ accounts.users)
        ⊎ (Spends memory same_bytes
              (normalize_email (request_address new_password))
              (shown_code new_password)
              accounts.keys
              (serve memory same_bytes settings all_well new_password accounts).0.keys
            × (others
                  (request_address new_password)
                  (serve memory same_bytes settings all_well new_password accounts).0.users
                ≡ others (request_address new_password) accounts.users)))
accounts_need_code_example =
    accounts_need_code memory same_bytes settings all_well new_password accounts (refl, tt)
