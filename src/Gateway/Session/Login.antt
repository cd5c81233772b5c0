-- ===== src/Gateway/Session/Login.antt =====
-- GatewaySession::Authenticate and what HandlePacket does with its result. The DAOs are the section's
-- parameter `accounts`: the check of a token in Redis and the table of user profiles in MySQL.
pub mod Granted
use wim.Prelude.{
  Bool, Option, String, false, if◌then◌else◌, inl, inr, int_eq, is_positive, nat_eq, none, not, pos,
  some, string_eq, ℕ, ℤ, ◌&&◌, ◌==◌, ◌||◌, ◌⊎◌,
}
use wim.Gateway.Lease.{SessionLease, empty_lease, lease_is_empty}
use wim.Gateway.Registry.{bind}
use wim.Gateway.Session.{GatewaySession, send_raw}
use wim.Protocol.{ErrorCodes, ServiceId, error_value, service_value}
use wim.Wire.Packet.{Protobuf, TcpPacket, empty_packet, make_error_packet, value_or}

pub record UserInfo : Type 0 where
  pub uid : ℤ
  pub name : String
  pub age : ℤ
  pub sex : String
  pub head_image_url : String

-- `insert_user_info` is true where the DAO returns 0.
pub record Accounts : Type 1 where
  pub Database : Type 0
  pub validate_chat_auth_token : ℤ → String → Database → Bool
  pub insert_user_info : UserInfo → Database → Database × Bool
  pub get_user_info : ℤ → Database → Option UserInfo

pub record AuthResult : Type 0 where
  pub error : ℕ
  pub response : TcpPacket
  pub lease : SessionLease

abbrev pub failed_login : ErrorCodes → String → SessionLease → AuthResult
failed_login code text l = record {
  error = error_value code;
  response = make_error_packet (error_value code) text;
  lease = l;
}

abbrev pub welcome : ℤ → UserInfo → SessionLease → AuthResult
welcome uid info l = record {
  error = error_value ErrorCodes.success;
  response = record empty_packet {
    uid = some uid;
    name = some info.name;
    age = some info.age;
    sex = some info.sex;
    head_image_url = some info.head_image_url;
    error = some (error_value ErrorCodes.success);
  };
  lease = l;
}

abbrev pub profile : ℤ → TcpPacket → UserInfo
profile uid request = record {
  uid = uid;
  name = value_or "" request.name;
  age = value_or (pos 0) request.age;
  sex = value_or "" request.sex;
  head_image_url = value_or "" request.head_image_url;
}

abbrev pub found_profile : ErrorCodes × String → Option UserInfo → UserInfo ⊎ (ErrorCodes × String)
found_profile e none = inr e
found_profile e (some info) = inl info

module _ (accounts : Accounts) where
  abbrev pub token_is_valid : ℤ → Option String → accounts.Database → Bool
  token_is_valid uid none db = false
  token_is_valid uid (some token) db = accounts.validate_chat_auth_token uid token db

  -- The user's profile, or the error that the login ends with.
  unfoldable pub load_profile :
      ℤ → TcpPacket → accounts.Database → accounts.Database × (UserInfo ⊎ (ErrorCodes × String))
  load_profile uid request db =
      let inserted = accounts.insert_user_info (profile uid request) db in
      if value_or false request.init
      then (if inserted.1 then (inserted.0, inl (profile uid request)) else (
        inserted.0,
        found_profile (ErrorCodes.mysql_failed, "") (accounts.get_user_info uid inserted.0),
      ))
      else (
        db,
        found_profile (ErrorCodes.not_found, "user profile not found")
            (accounts.get_user_info uid db),
      )

  -- The part of `Authenticate` after the profile; `bind` is registry.Bind.
  abbrev pub publish {ℓ} :
      {S : Type ℓ}
      → (ℤ → S → S × SessionLease)
      → ℤ
      → S
      → accounts.Database × (UserInfo ⊎ (ErrorCodes × String))
      → (accounts.Database × S) × AuthResult
  publish bind uid s (db, inr (code, text)) = ((db, s), failed_login code text empty_lease)
  publish bind uid s (db, inl info) =
      let bound = bind uid s in
      if lease_is_empty bound.1
      then (
        (db, bound.0),
        failed_login ErrorCodes.dependency_unavailable "failed to publish session lease" bound.1,
      )
      else ((db, bound.0), welcome uid info bound.1)

  -- `current` is the user that the connection is bound to.
  unfoldable pub authenticate {ℓ} :
      {S : Type ℓ}
      → (ℤ → S → S × SessionLease)
      → ℤ
      → TcpPacket
      → accounts.Database × S
      → (accounts.Database × S) × AuthResult
  unfolding load_profile error_value make_error_packet lease_is_empty
  authenticate bind current request (db, s) =
      let uid = value_or (pos 0) request.uid in
      if not (is_positive uid) || not (token_is_valid uid request.auth_token db)
      then (
        (db, s),
        failed_login ErrorCodes.token_invalid "invalid or expired connection token" empty_lease,
      )
      else if is_positive current && not (current == uid)
      then ((db, s), failed_login ErrorCodes.uid_invalid "connection is already bound" empty_lease)
      else publish bind uid s (load_profile uid request db)

module _ (pb : Protobuf) where
  -- The rest of `HandlePacket` for a login.
  unfoldable pub on_authenticated : AuthResult → ℕ → GatewaySession → GatewaySession
  unfolding send_raw error_value service_value
  on_authenticated result now s =
      let s' =
        if result.error == error_value ErrorCodes.success
        then record s {
          lease = result.lease;
          user_id = value_or (pos 0) result.response.uid;
          last_lease_refresh = now;
        }
        else s in
      (send_raw (pb.serialize result.response) (service_value ServiceId.login_init_rsp) s').0
