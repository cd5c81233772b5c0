-- ===== src/Gate/Accounts.antt =====
-- Registration and new passwords: signUp and forgetPassword of server/gate/src/service/Service.cc. The names
-- that AUTO_INCREMENT and generateUserId give, and the clock, are read from the call's arguments.
pub mod Owner
use wim.Prelude.{
  Bool, List, Option, [], eqb, false, if◌then◌else◌, int_eq, length, nat_eq, negsuc, none, not, pos,
  some, string_eq, true, ℕ, ℤ, ◌&&◌, ◌==◌, ◌||◌,
}
use wim.Gate.Email.{Email, email_eq, is_valid_email, normalize_email}
use wim.Gate.Users.{User, get_user, has_email, has_username, user_modify_password, user_register}
use wim.Gate.Verification.{Code, Keys, Redis, Settings, verify_and_consume}
use wim.Gateway.Lease.{Outcome}
use wim.Message.Packet.{has}
use wim.Protocol.{
  email_not_match, error_value, json_parser, not_found, passwd_invalid, passwd_up_failed,
  user_exist, verification_code_invalid,
}
use wim.Wire.Packet.{value_or}

-- What a request says; a field that is missing is none.
pub record AccountRequest : Type 0 where
  pub username : Option (List ℕ)
  pub password : Option (List ℕ)
  pub email : Option Email
  pub verify_code : Option Code

pub record AccountAnswer : Type 0 where
  pub error : ℤ
  pub uid : Option ℕ
  pub username : Option (List ℕ)
  pub email : Option Email

-- The two requests that change accounts, as Service registers them.
pub data ServiceRequest : Type 0 where
  sign_up_request forget_request : AccountRequest → ServiceRequest

-- What the services around answer to one request. `email_read` and `user_read` say whether a query
-- could be made, `code` and `write` how the call of Redis and the change of the table ended.
pub record Surroundings : Type 0 where
  pub email_read : Bool
  pub user_read : Bool
  pub code : Outcome
  pub write : Outcome
  pub next_id : ℕ
  pub next_uid : ℕ
  pub now : List ℕ

abbrev pub failed_with : ℤ → AccountAnswer
failed_with code = record { error = code; uid = none; username = none; email = none }

module _ (redis : Redis) (same : List ℕ → List ℕ → Bool) where
  pub record Accounts : Type 0 where
    pub keys : Keys redis
    pub users : List User

  abbrev pub registered : User → Keys redis → List User × ℤ → Accounts × AccountAnswer
  registered user k (us, code) = (
    record { keys = k; users = us },
    if code == pos 0
        then record {
          error = pos 0;
          uid = some user.uid;
          username = some user.username;
          email = some user.email;
        }
        else failed_with (negsuc 0),
  )

  -- signUp behind the check of the code.
  abbrev pub sign_up_checked :
      Surroundings
      → List ℕ
      → List ℕ
      → Email
      → List User
      → Keys redis × Bool
      → Accounts × AccountAnswer
  sign_up_checked env name word email us (k, false) =
      (record { keys = k; users = us }, failed_with (pos (error_value verification_code_invalid)))
  sign_up_checked env name word email us (k, true) =
      let user : User = record {
        id = env.next_id;
        uid = env.next_uid;
        username = name;
        password = word;
        email = email;
        create_time = env.now;
      } in
      registered user k (user_register same env.write user us)

  unfoldable pub sign_up_with :
      Settings → Surroundings → List ℕ → List ℕ → Email → Code → Accounts → Accounts × AccountAnswer
  sign_up_with cfg env name word email code a =
      if eqb (length name) 0 || eqb (length word) 0 || not (is_valid_email email)
      then (a, failed_with (pos (error_value json_parser)))
      else if not (has_email same env.email_read email a.users == pos 0)
      then (a, failed_with (pos (error_value user_exist)))
      else if not (has_username same env.user_read name a.users == pos 0)
      then (a, failed_with (pos (error_value user_exist)))
      else sign_up_checked env name word email a.users
          (verify_and_consume redis cfg env.code email code a.keys)

  abbrev pub renewed : List ℕ → Keys redis → List User × ℤ → Accounts × AccountAnswer
  renewed name k (us, code) = (
    record { keys = k; users = us },
    if code == pos 0
        then record { error = pos 0; uid = none; username = some name; email = none }
        else failed_with (pos (error_value passwd_up_failed)),
  )

  -- forgetPassword behind the check of the code.
  abbrev pub forget_checked :
      Surroundings
      → List ℕ
      → List ℕ
      → User
      → List User
      → Keys redis × Bool
      → Accounts × AccountAnswer
  forget_checked env name word user us (k, false) =
      (record { keys = k; users = us }, failed_with (pos (error_value verification_code_invalid)))
  forget_checked env name word user us (k, true) =
      renewed name k (user_modify_password same env.write (record user { password = word }) us)

  unfoldable pub forget_found :
      Settings
      → Surroundings
      → List ℕ
      → List ℕ
      → Email
      → Code
      → Option User
      → Accounts
      → Accounts × AccountAnswer
  forget_found cfg env name word email code none a = (a, failed_with (pos (error_value not_found)))
  forget_found cfg env name word email code (some user) a =
      if not (normalize_email user.email == email)
      then (a, failed_with (pos (error_value email_not_match)))
      else if eqb (length word) 0
      then (a, failed_with (pos (error_value passwd_invalid)))
      else forget_checked env name word user a.users
          (verify_and_consume redis cfg env.code email code a.keys)

  -- A request with all its fields.
  unfoldable pub sign_up :
      Settings → Surroundings → AccountRequest → Accounts → Accounts × AccountAnswer
  sign_up cfg env r a =
      if has r.username && has r.password && has r.email && has r.verify_code
      then sign_up_with cfg env (value_or [] r.username) (value_or [] r.password)
          (normalize_email (value_or [] r.email)) (value_or [] r.verify_code) a
      else (a, failed_with (pos (error_value json_parser)))

  unfoldable pub forget_password :
      Settings → Surroundings → AccountRequest → Accounts → Accounts × AccountAnswer
  forget_password cfg env r a =
      if has r.username && has r.password && has r.email && has r.verify_code
      then forget_found cfg env (value_or [] r.username) (value_or [] r.password)
          (normalize_email (value_or [] r.email)) (value_or [] r.verify_code)
          (get_user same env.user_read (value_or [] r.username) a.users) a
      else (a, failed_with (pos (error_value json_parser)))

  abbrev pub serve : Settings → Surroundings → ServiceRequest → Accounts → Accounts × AccountAnswer
  serve cfg env (sign_up_request r) a = sign_up cfg env r a
  serve cfg env (forget_request r) a = forget_password cfg env r a
