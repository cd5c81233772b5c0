-- ===== src/Gate/SignIn.antt =====
-- requestVerificationCode and signIn of server/gate/src/service/Service.cc, with setChatAuthToken and
-- validateChatAuthToken of server/public/include/Redis.h. The keys of the tokens are the section's parameter.
pub mod Handover
use wim.Prelude.{
  Bool, List, Option, [], eqb, false, if◌then◌else◌, int_eq, leb, length, nat_eq, negsuc, none, not,
  pos, some, string_eq, true, ℕ, ℤ, ◌==◌, ◌^◌, ◌||◌, ◌≡◌,
}
use wim.Gate.Email.{Email, email_eq, normalize_email}
use wim.Gate.Users.{User, get_user}
use wim.Gate.Verification.{Code, Keys, Redis, Settings, request_email_code}
use wim.Gateway.Lease.{Outcome, done, reply_lost, unreachable}
use wim.Protocol.{error_value, internal_error, json_parser}
use wim.Wire.Packet.{value_or}

-- The answer to a request of a code.
pub record CodeAnswer : Type 0 where
  pub error : ℕ
  pub email : Email
  pub issued : Bool
  pub verification_code : Option Code

module _ (redis : Redis) where
  -- `email` is none where the request has no such field.
  unfoldable pub request_verification_code :
      Settings
      → Outcome
      → Outcome
      → Outcome
      → Bool
      → Code
      → Option Email
      → Keys redis
      → Keys redis × CodeAnswer
  request_verification_code cfg issue read clear delivered code none k = (
    k,
    record {
      error = error_value json_parser;
      email = [];
      issued = false;
      verification_code = none;
    },
  )
  request_verification_code cfg issue read clear delivered code (some raw) k =
      let email = normalize_email raw in
      let r = request_email_code redis cfg issue read clear delivered code email k in
      (
        r.0,
        record {
          error = r.1.error;
          email = email;
          issued = r.1.issued;
          verification_code =
              if eqb (length r.1.development_code) 0 then none else some r.1.development_code;
        },
      )

-- im:chatAuth:{uid}, with what Redis documents of GET and SETEX.
pub record Tokens : Type 1 where
  pub State : Type 0
  pub get : ℕ → State → Option (List ℕ)
  pub setex : ℕ → ℕ → List ℕ → State → State
  pub get-setex :
      (uid v seconds : ℕ) (token : List ℕ) (s : State)
      → get v (setex uid seconds token s) ≡ (if uid == v then some token else get v s)

-- rpc::ServerNode
pub record ServerNode : Type 0 where
  pub ip : List ℕ
  pub port : ℕ
  pub node_id : List ℕ

abbrev pub is_empty_node : ServerNode → Bool
is_empty_node node = eqb (length node.ip) 0 || eqb node.port 0

pub record SignInAnswer : Type 0 where
  pub error : ℤ
  pub init : Option ℕ
  pub uid : Option ℕ
  pub node : Option ServerNode
  pub chat_token : Option (List ℕ)
  pub chat_token_expires_in : Option ℕ

abbrev pub failed_sign_in : ℤ → SignInAnswer
failed_sign_in code = record {
  error = code;
  init = none;
  uid = none;
  node = none;
  chat_token = none;
  chat_token_expires_in = none;
}

abbrev pub chat_auth_token_ttl_seconds : ℕ
chat_auth_token_ttl_seconds = 900

-- What is around a sign-in: whether the user could be read, the Gateway that the State service picks, whether
-- the user has a profile, the token that is drawn, and how its SETEX ends.
pub record SignInSurroundings : Type 0 where
  pub user_read : Bool
  pub pick : ℕ → ServerNode
  pub has_user_info : ℕ → Bool
  pub token : List ℕ
  pub stored : Outcome

-- A uid is passed on as a long.
abbrev pub is_bad_uid : ℕ → Bool
is_bad_uid uid = eqb uid 0 || leb (2 ^ 63) uid

abbrev pub is_token : List ℕ → Option (List ℕ) → Bool
is_token token none = false
is_token token (some stored) = stored == token

module _ (tokens : Tokens) where
  abbrev pub token_stored : Outcome → tokens.State → tokens.State → tokens.State × Bool
  token_stored done s s' = (s', true)
  token_stored unreachable s s' = (s, false)
  token_stored reply_lost s s' = (s', false)

  unfoldable pub set_chat_auth_token : Outcome → ℕ → List ℕ → ℕ → tokens.State → tokens.State × Bool
  set_chat_auth_token o uid token ttl s =
      if is_bad_uid uid || eqb (length token) 0 || eqb ttl 0
      then (s, false)
      else token_stored o s (tokens.setex uid ttl token s)

  unfoldable pub validate_chat_auth_token : ℕ → List ℕ → tokens.State → Bool
  validate_chat_auth_token uid token s =
      if is_bad_uid uid || eqb (length token) 0 then false else is_token token (tokens.get uid s)

  abbrev pub token_answer :
      SignInSurroundings → User → tokens.State × Bool → tokens.State × SignInAnswer
  token_answer env user (s, false) = (s, failed_sign_in (pos (error_value internal_error)))
  token_answer env user (s, true) = (
    s,
    record {
      error = pos 0;
      init = some (if env.has_user_info user.uid then 0 else 1);
      uid = some user.uid;
      node = some (env.pick user.uid);
      chat_token = some env.token;
      chat_token_expires_in = some chat_auth_token_ttl_seconds;
    },
  )

  unfoldable pub sign_in_user :
      SignInSurroundings → List ℕ → Option User → tokens.State → tokens.State × SignInAnswer
  sign_in_user env word none s = (s, failed_sign_in (negsuc 0))
  sign_in_user env word (some user) s =
      if not (user.password == word)
      then (s, failed_sign_in (negsuc 0))
      else if is_empty_node (env.pick user.uid)
      then (s, failed_sign_in (negsuc 0))
      else token_answer env user
          (set_chat_auth_token env.stored user.uid env.token chat_auth_token_ttl_seconds s)

  -- A field that is missing reads as an empty text.
  unfoldable pub sign_in :
      (List ℕ → List ℕ → Bool)
      → SignInSurroundings
      → Option (List ℕ)
      → Option (List ℕ)
      → List User
      → tokens.State
      → tokens.State × SignInAnswer
  sign_in same env name word users s =
      sign_in_user env (value_or [] word) (get_user same env.user_read (value_or [] name) users) s
