-- ===== src/Gate/Users.antt =====
-- The table users: getUser, hasEmail, hasUsername, userRegister and userModifyPassword of
-- server/public/include/Mysql.h. Two texts are equal for MySQL when its collation says so, which is a
-- parameter. The values of AUTO_INCREMENT and of the clock stand in the row that is written.
pub mod Kept
use wim.Prelude.{
  Bool, List, Option, [], eqb, false, if◌then◌else◌, negsuc, none, pos, some, ℕ, ℤ, ◌&&◌, ◌++◌,
  ◌||◌, ◌∷◌,
}
use wim.Gate.Email.{Email}
use wim.Gateway.Lease.{Outcome, done, reply_lost, unreachable}
use wim.Message.Packet.{has}

-- The table users.
pub record User : Type 0 where
  pub id : ℕ
  pub uid : ℕ
  pub username : List ℕ
  pub password : List ℕ
  pub email : Email
  pub create_time : List ℕ

module _ (same : List ℕ → List ℕ → Bool) where
  -- SELECT * FROM users WHERE username = ?
  unfoldable pub find_user : List ℕ → List User → Option User
  find_user name [] = none
  find_user name (u ∷ us) =
      let rest = find_user name us in if same u.username name then some u else rest

  -- SELECT 1 FROM users WHERE email = ?
  unfoldable pub find_email : Email → List User → Bool
  find_email email [] = false
  find_email email (u ∷ us) = same u.email email || find_email email us

  abbrev pub get_user : Bool → List ℕ → List User → Option User
  get_user available name us = if available then find_user name us else none

  abbrev pub has_email : Bool → Email → List User → ℤ
  has_email available email us =
      if available then (if find_email email us then pos 1 else pos 0) else negsuc 0

  abbrev pub has_username : Bool → List ℕ → List User → ℤ
  has_username available name us =
      if available then (if has (find_user name us) then pos 1 else pos 0) else negsuc 0

  -- SELECT COUNT(*) FROM users WHERE email = ? OR uid = ?
  unfoldable pub is_registered : User → List User → Bool
  is_registered user [] = false
  is_registered user (u ∷ us) =
      same u.email user.email || eqb u.uid user.uid || is_registered user us

  -- `executeTemplate` around a change of the table.
  abbrev pub changed : Outcome → List User → List User × ℤ → List User × ℤ
  changed done us r = r
  changed unreachable us r = (us, negsuc 0)
  changed reply_lost us (us', n) = (us', negsuc 0)

  -- The unique keys refuse an INSERT of a name that is taken.
  unfoldable pub user_register : Outcome → User → List User → List User × ℤ
  user_register o user us = changed o us (
      if is_registered user us
      then (us, pos 1)
      else if has (find_user user.username us)
      then (us, negsuc 0)
      else (us ++ (user ∷ []), pos 0))

  -- WHERE email = ? AND uid = ?
  abbrev pub is_row : User → User → Bool
  is_row user u = same u.email user.email && eqb u.uid user.uid

  unfoldable pub has_row : User → List User → Bool
  has_row user [] = false
  has_row user (u ∷ us) = is_row user u || has_row user us

  unfoldable pub set_password : User → List User → List User
  set_password user [] = []
  set_password user (u ∷ us) =
      (if is_row user u then record u { password = user.password } else u) ∷ set_password user us

  unfoldable pub user_modify_password : Outcome → User → List User → List User × ℤ
  user_modify_password o user us =
      changed o us (if has_row user us then (set_password user us, pos 0) else (us, pos 1))
