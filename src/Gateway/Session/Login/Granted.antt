-- ===== src/Gateway/Session/Login/Granted.antt =====
-- When a login succeeds.
use wim.Prelude.{
  Bool, Option, String, arith, false, if_elim, inl, int_eq, is_positive, nat_eq, none, not, pos,
  refl, some, string_eq, true, ℤ, ◌&&◌, ◌==◌, ◌||◌, ◌≡◌, ◌≢◌,
}
use wim.Gateway.Lease.{SessionLease, lease_is_empty}
use wim.Gateway.Registry.{bind}
use wim.Gateway.Session.Login.{
  Accounts, AuthResult, UserInfo, authenticate, found_profile, load_profile, profile, publish,
  token_is_valid,
}
use wim.Protocol.{ErrorCodes, error_value}
use wim.Wire.Packet.{TcpPacket, value_or}

module _ {ℓ} (accounts : Accounts) {S : Type ℓ} (bind : ℤ → S → S × SessionLease) where
  -- What a result without an error says of the lease and of the response.
  abbrev Published : ℤ → (accounts.Database × S) × AuthResult → Type 0
  Published uid r =
      r.1.error ≡ 0 → (lease_is_empty r.1.lease ≡ false) × (r.1.response.uid ≡ some uid)

  inl-Published :
      (uid : ℤ) (s : S) (db : accounts.Database) (info : UserInfo)
      → Published uid (publish accounts bind uid s (db, inl info))
  unfolding error_value
  inl-Published uid s db info =
      if_elim (Published uid) (lease_is_empty (bind uid s).1) (λ gone h. absurd (cc h))
        (λ held h. (held, refl))

  found-Published :
      (uid : ℤ) (s : S) (db : accounts.Database) (e : ErrorCodes × String) (o : Option UserInfo)
      → error_value e.0 ≢ 0
      → Published uid (publish accounts bind uid s (db, found_profile e o))
  found-Published uid s db e none differ = λ h. absurd (differ h)
  found-Published uid s db e (some info) differ = inl-Published uid s db info

  load_profile-Published :
      (uid : ℤ) (request : TcpPacket) (db : accounts.Database) (s : S)
      → Published uid (publish accounts bind uid s (load_profile accounts uid request db))
  unfolding load_profile error_value
  load_profile-Published uid request db s =
      if_elim (λ l. Published uid (publish accounts bind uid s l)) (value_or false request.init)
        (λ _.
          if_elim (λ l. Published uid (publish accounts bind uid s l)) inserted.1
            (λ _. inl-Published uid s inserted.0 (profile uid request))
            (λ _.
              found-Published uid s inserted.0 (ErrorCodes.mysql_failed, "")
                (accounts.get_user_info uid inserted.0) (λ e. cc e)))
        (λ _.
          found-Published uid s db (ErrorCodes.not_found, "user profile not found")
            (accounts.get_user_info uid db) (λ e. cc e))
    where
      inserted : accounts.Database × Bool
      inserted = accounts.insert_user_info (profile uid request) db

  abbrev Grants : ℤ → TcpPacket → accounts.Database → (accounts.Database × S) × AuthResult → Type 0
  Grants current request db r =
      r.1.error ≡ 0
      → (is_positive (value_or (pos 0) request.uid) ≡ true)
        × (token_is_valid accounts (value_or (pos 0) request.uid) request.auth_token db ≡ true)
        × ((is_positive current && not (current == value_or (pos 0) request.uid)) ≡ false)
        × (lease_is_empty r.1.lease ≡ false)
        × (r.1.response.uid ≡ some (value_or (pos 0) request.uid))

  authenticate-Grants :
      (current : ℤ) (request : TcpPacket) (db : accounts.Database) (s : S)
      → Grants current request db (authenticate accounts bind current request (db, s))
  unfolding authenticate error_value
  authenticate-Grants current request db s =
      if_elim (Grants current request db)
        (not (is_positive uid) || not (token_is_valid accounts uid request.auth_token db))
        (λ _ h. absurd (cc h))
        (λ valid.
          if_elim (Grants current request db) (is_positive current && not (current == uid))
            (λ _ h. absurd (cc h))
            (λ free h.
              let p = load_profile-Published uid request db s h in
              (both.0 valid, both.1 valid, free, p.0, p.1)))
    where
      uid : ℤ
      uid = value_or (pos 0) request.uid

      both :
          ((not (is_positive uid) || not (token_is_valid accounts uid request.auth_token db))
              ≡ false
            → is_positive uid ≡ true)
          × ((not (is_positive uid) || not (token_is_valid accounts uid request.auth_token db))
                ≡ false
              → token_is_valid accounts uid request.auth_token db ≡ true)
      both = ((λ h. ground arith), λ h. ground arith)

-- Authenticate succeeds only for a positive user id with a valid token, over a connection that is bound to no
-- other user; it then has a lease that is not empty and answers with the same user id.
pub login_granted :
    {S : Type 0} (accounts : Accounts) (bind : ℤ → S → S × SessionLease) (current : ℤ)
    (request : TcpPacket) (db : accounts.Database) (s : S)
    → (authenticate accounts bind current request (db, s)).1.error ≡ 0
    → (is_positive (value_or (pos 0) request.uid) ≡ true)
      × (token_is_valid accounts (value_or (pos 0) request.uid) request.auth_token db ≡ true)
      × ((is_positive current && not (current == value_or (pos 0) request.uid)) ≡ false)
      × (lease_is_empty (authenticate accounts bind current request (db, s)).1.lease ≡ false)
      × ((authenticate accounts bind current request (db, s)).1.response.uid
          ≡ some (value_or (pos 0) request.uid))
login_granted accounts bind current request db s h =
    authenticate-Grants accounts bind current request db s h
