-- ===== src/Gate/Users/Kept.antt =====
-- What a change of the table users keeps (server/public/include/Mysql.h).
use mathlib.Core.Path.{sym}
use mathlib.Core.Path.{subst}
use wim.Prelude.{
  All, Bool, Bool-cases, List, [], arith, eqb, eqb_iff, false, if_elim, if◌then◌else◌, inl, inr,
  int_eq, nat_eq, refl, some, string_eq, true, ℕ, ℤ, ◌++◌, ◌==◌, ◌||◌, ◌∙◌, ◌∷◌, ◌≡◌,
}
use wim.Gate.Email.{Email, email_eq, normalize_email}
use wim.Gate.Users.{
  User, changed, find_user, has_row, is_registered, is_row, set_password, user_modify_password,
  user_register,
}
use wim.Gateway.Lease.{Outcome, done, reply_lost, unreachable}
use wim.Message.Packet.{has}

abbrev pub has_uid : ℕ → List User → Bool
has_uid n [] = false
has_uid n (u ∷ us) = eqb u.uid n || has_uid n us

abbrev pub DistinctUids : List User → Type 0
DistinctUids [] = Unit
DistinctUids (u ∷ us) = (has_uid u.uid us ≡ false) × DistinctUids us

-- Whose address it is, as it stands in the table or normalised.
abbrev pub is_owner : Email → User → Bool
is_owner e u = u.email == e || normalize_email u.email == e

abbrev pub others : Email → List User → List User
others e [] = []
others e (u ∷ us) = if is_owner e u then others e us else u ∷ others e us

others-append :
    (e : Email) (user : User) (us : List User)
    → is_owner e user ≡ true
    → others e (us ++ (user ∷ [])) ≡ others e us
others-append e user [] own = rw own refl
others-append e user (u ∷ us) own = rw (others-append e user us own) refl

has_uid-append :
    (n : ℕ) (user : User) (us : List User)
    → has_uid n (us ++ (user ∷ [])) ≡ (has_uid n us || eqb user.uid n)
has_uid-append n user [] = ground arith
has_uid-append n user (u ∷ us) = rw (has_uid-append n user us) ground arith

append-DistinctUids :
    (user : User) (us : List User)
    → has_uid user.uid us ≡ false
    → DistinctUids us
    → DistinctUids (us ++ (user ∷ []))
append-DistinctUids user [] new d = (refl, tt)
append-DistinctUids user (u ∷ us) new d =
    let differs : eqb user.uid u.uid ≡ false = ground (arith, new) in
    (
      rw (has_uid-append u.uid user us, d.0, differs) refl,
      append-DistinctUids user us (ground (arith, new)) d.1,
    )

module _ (same : List ℕ → List ℕ → Bool) where
  registered_free :
      (user : User) (us : List User)
      → is_registered same user us ≡ false
      → has_uid user.uid us ≡ false
  unfolding is_registered
  registered_free user [] h = refl
  registered_free user (u ∷ us) h = ground (arith, registered_free user us)

  abbrev Owned : ℕ → Email → User → Type 0
  Owned n e u = u.uid ≡ n → is_owner e u ≡ true

  free-Owned : (n : ℕ) (e : Email) (us : List User) → has_uid n us ≡ false → All (Owned n e) us
  free-Owned n e [] h = tt
  free-Owned n e (u ∷ us) h =
      let differs : eqb u.uid n ≡ false = ground (arith, h) in
      (λ p. absurd (cc ((eqb_iff u.uid n).1 p, differs)), free-Owned n e us (ground (arith, h)))

  find_user-has_uid :
      (name : List ℕ) (us : List User) (user : User)
      → find_user same name us ≡ some user
      → has_uid user.uid us ≡ true
  unfolding find_user
  find_user-has_uid name [] user h = cc
  find_user-has_uid name (u ∷ us) user h = elim (Bool-cases (same u.username name)) [
    | inl hit ↦
        let found : u ≡ user = cc (rw hit at h) in
        subst (λ v. has_uid v.uid (u ∷ us) ≡ true) found (rw ((eqb_iff u.uid u.uid).1 refl) refl)
    | inr miss ↦
        let found : has_uid user.uid us ≡ true = find_user-has_uid name us user (rw miss at h) in
        ground (arith, found)
  ]

  -- With distinct ids, the user that was found is the only one with its id.
  found-Owned :
      (name : List ℕ) (e : Email) (us : List User) (user : User)
      → DistinctUids us
      → is_owner e user ≡ true
      → find_user same name us ≡ some user
      → All (Owned user.uid e) us
  unfolding find_user
  found-Owned name e [] user d own h = tt
  found-Owned name e (u ∷ us) user d own h = elim (Bool-cases (same u.username name)) [
    | inl hit ↦
        let found : u ≡ user = cc (rw hit at h) in
        let free : has_uid user.uid us ≡ false = subst (λ v. has_uid v.uid us ≡ false) found d.0 in
        (λ _. subst (λ v. is_owner e v ≡ true) (sym found) own, free-Owned user.uid e us free)
    | inr miss ↦
        let later : find_user same name us ≡ some user = (rw miss at h) in
        let listed : has_uid user.uid us ≡ true = find_user-has_uid name us user later in
        (
          λ p. absurd (cc (subst (λ n. has_uid n us ≡ false) p d.0, listed)),
          found-Owned name e us user d.1 own later,
        )
  ]

  set_password-has_uid :
      (n : ℕ) (user : User) (us : List User) → has_uid n (set_password same user us) ≡ has_uid n us
  unfolding set_password
  set_password-has_uid n user [] = refl
  set_password-has_uid n user (u ∷ us) = rw (set_password-has_uid n user us) (
      if_elim (λ (v : User). (eqb v.uid n || has_uid n us) ≡ (eqb u.uid n || has_uid n us))
        (is_row same user u) (λ _. refl) (λ _. refl))

  set_password-others :
      (e : Email) (user : User) (us : List User)
      → All (Owned user.uid e) us
      → others e (set_password same user us) ≡ others e us
  unfolding set_password
  set_password-others e user [] a = refl
  set_password-others e user (u ∷ us) a =
      rw (set_password-others e user us a.1) (elim (Bool-cases (is_row same user u)) [
        | inl row ↦
            let owned : is_owner e u ≡ true =
              a.0 ((eqb_iff u.uid user.uid).0 (ground (arith, row))) in
            rw (row, owned) refl
        | inr other ↦ rw other refl
      ])

  set_password-DistinctUids :
      (user : User) (us : List User) → DistinctUids us → DistinctUids (set_password same user us)
  unfolding set_password
  set_password-DistinctUids user [] d = tt
  set_password-DistinctUids user (u ∷ us) d = (
    if_elim (λ (v : User). has_uid v.uid (set_password same user us) ≡ false) (is_row same user u)
        (λ _. set_password-has_uid u.uid user us ∙ d.0)
        (λ _. set_password-has_uid u.uid user us ∙ d.0),
    set_password-DistinctUids user us d.1,
  )

  -- What a change of one address's account keeps.
  abbrev pub Keeps : Email → List User → List User → Type 0
  Keeps e us us' = DistinctUids us' × (others e us' ≡ others e us)

  changed-Keeps :
      (e : Email) (o : Outcome) (us : List User) (r : List User × ℤ)
      → DistinctUids us
      → Keeps e us r.0
      → Keeps e us (changed same o us r).0
  changed-Keeps e done us r d keeps = keeps
  changed-Keeps e unreachable us r d keeps = (d, refl)
  changed-Keeps e reply_lost us r d keeps = keeps

  pub user_register-Keeps :
      (e : Email) (o : Outcome) (user : User) (us : List User)
      → DistinctUids us
      → is_owner e user ≡ true
      → Keeps e us (user_register same o user us).0
  unfolding user_register
  user_register-Keeps e o user us d own = changed-Keeps e o us _ d (
      if_elim (λ (r : List User × ℤ). Keeps e us r.0) (is_registered same user us) (λ _. (d, refl))
        (λ new.
          if_elim (λ (r : List User × ℤ). Keeps e us r.0) (has (find_user same user.username us))
            (λ _. (d, refl))
            (λ _. (
              append-DistinctUids user us (registered_free user us new) d,
              others-append e user us own,
            ))))

  pub user_modify_password-Keeps :
      (e : Email) (o : Outcome) (name word : List ℕ) (user : User) (us : List User)
      → DistinctUids us
      → is_owner e user ≡ true
      → find_user same name us ≡ some user
      → Keeps e us (user_modify_password same o (record user { password = word }) us).0
  unfolding user_modify_password
  user_modify_password-Keeps e o name word user us d own found = changed-Keeps e o us _ d (
      if_elim (λ (r : List User × ℤ). Keeps e us r.0)
        (has_row same (record user { password = word }) us)
        (λ _. (
          set_password-DistinctUids (record user { password = word }) us d,
          set_password-others e (record user { password = word }) us
              (found-Owned name e us user d own found),
        ))
        (λ _. (d, refl)))
