-- ===== src/Login/Links.antt =====
-- codecov_auth/views/base.py: which user a login gives to an owner.
use codecov_api.Base.{
  ==_iff, All, Bool, Bool-cases, List, Option, Option-cases, String, [], any, ap, arith, eq_iff,
  false, inl, inr, neither, none, refl, some, subst, ℕ, ◌+◌, ◌<◌, ◌==◌, ◌∙◌, ◌∷◌, ◌≡◌, ◌⊎◌,
}
use codecov_api.Login.{
  Account, Auth, LoginState, claim, claim_new, enter, is_linked, login_by, login_owner, put_account,
}

-- No two owners of one service have the same user.
abbrev pub IsSeparate : List Account → Type 0
IsSeparate [] = Unit
IsSeparate (a ∷ rows) =
    ((u : ℕ) → a.user ≡ some u → any (is_linked u a.service) rows ≡ false) × IsSeparate rows

-- The users that the owners have were created before.
abbrev pub AreKnown : ℕ → List Account → Type 0
AreKnown next rows = All (λ a. (u : ℕ) → a.user ≡ some u → u < next) rows

same_user : {own : Option ℕ} {u v : ℕ} → own ≡ some u → own ≡ some v → u ≡ v
same_user e h = cc

any-put_account :
    (p : Account → Bool) (o : Account) (rows : List Account)
    → p o ≡ false
    → any p rows ≡ false
    → any p (put_account o rows) ≡ false
unfolding put_account
any-put_account p o [] h a = ground arith
any-put_account p o (r ∷ rows) h a =
    let (b, c) = neither (p r) (any p rows) a in ground (arith, any-put_account p o rows h c)

linked-sym :
    (u v : ℕ) (o a : Account)
    → o.user ≡ some u
    → a.user ≡ some v
    → is_linked u o.service a ≡ false
    → is_linked v a.service o ≡ false
linked-sym u v o a e f h = ground (arith, eq_iff o.service a.service, eq_iff a.service o.service)

put_account-IsSeparate :
    (o : Account) (u : ℕ) (rows : List Account)
    → o.user ≡ some u
    → any (is_linked u o.service) rows ≡ false
    → IsSeparate rows
    → IsSeparate (put_account o rows)
unfolding put_account
put_account-IsSeparate o u [] e free s = (λ v h. refl, tt)
put_account-IsSeparate o u (r ∷ rows) e free (apart, s) =
    let (here, there) = neither (is_linked u o.service r) (any (is_linked u o.service) rows) free in
    elim (Bool-cases (r.ownerid == o.ownerid)) [
      | inl same ↦
          rw same
            (λ v h. subst (λ w. any (is_linked w o.service) rows ≡ false) (same_user e h) there, s)
      | inr other ↦ rw other (
        λ v h.
            any-put_account (is_linked v r.service) o rows (linked-sym u v o r e h here)
              (apart v h),
        put_account-IsSeparate o u rows e there s,
      )
    ]

fresh-unlinked :
    (next : ℕ) (service : String) (rows : List Account)
    → AreKnown next rows
    → any (is_linked next service) rows ≡ false
fresh-unlinked next service [] k = refl
fresh-unlinked next service (a ∷ rows) (below, k) = elim (Option-cases a.user) [
  | inl e ↦ rw e (fresh-unlinked next service rows k)
  | inr (u, e) ↦ rw e (ground (arith, below u e, fresh-unlinked next service rows k))
]

put_account-AreKnown :
    (next u : ℕ) (o : Account) (rows : List Account)
    → o.user ≡ some u
    → u < next
    → AreKnown next rows
    → AreKnown next (put_account o rows)
unfolding put_account
put_account-AreKnown next u o [] e less k = (owned, tt)
  where
    owned : (v : ℕ) → o.user ≡ some v → v < next
    owned v h = subst (λ w. w < next) (same_user e h) less
put_account-AreKnown next u o (r ∷ rows) e less (b, k) =
    elim (Bool-cases (r.ownerid == o.ownerid)) [
      | inl same ↦ rw same (owned, k)
      | inr other ↦ rw other (b, put_account-AreKnown next u o rows e less k)
    ]
  where
    owned : (v : ℕ) → o.user ≡ some v → v < next
    owned v h = subst (λ w. w < next) (same_user e h) less

AreKnown-suc : (next : ℕ) (rows : List Account) → AreKnown next rows → AreKnown (next + 1) rows
AreKnown-suc next [] k = tt
AreKnown-suc next (a ∷ rows) (b, k) = ((λ u h. omega (arith, b u h)), AreKnown-suc next rows k)

abbrev pub IsSound : LoginState → Type 0
IsSound s =
    IsSeparate s.accounts
    × AreKnown s.next_user s.accounts
    × ((u : ℕ) → s.session.user ≡ some u → u < s.next_user)

-- The session is that of a user, who is the owner's: the one that it had, where nothing is
-- written, or one that the owner without a user gets.
abbrev pub EntersAs : Account → LoginState → LoginState → Type 0
EntersAs o s s' =
    (v : ℕ) × (s'.session.user ≡ some v)
    × (((o.user ≡ some v) × (s'.accounts ≡ s.accounts))
        ⊎ ((o.user ≡ none) × (s'.accounts ≡ put_account (record o { user = some v }) s.accounts)))

module _ (auth : Auth) (o : Account) (s : LoginState) (sound : IsSound s) where
  -- The new user is fresh.
  new_row :
      IsSeparate (put_account (record o { user = some s.next_user }) s.accounts)
      × AreKnown (s.next_user + 1) (put_account (record o { user = some s.next_user }) s.accounts)
  new_row = (
    put_account-IsSeparate (record o { user = some s.next_user }) s.next_user s.accounts refl
        (fresh-unlinked s.next_user o.service s.accounts sound.1) sound.0,
    put_account-AreKnown (s.next_user + 1) s.next_user (record o { user = some s.next_user })
        s.accounts refl (omega arith) (AreKnown-suc s.next_user s.accounts sound.1),
  )

  by :
      (current own : Option ℕ)
      → s.session.user ≡ current
      → o.user ≡ own
      → EntersAs o s (login_by auth o current own s)
        × IsSeparate (login_by auth o current own s).accounts
        × AreKnown
            (login_by auth o current own s).next_user
            (login_by auth o current own s).accounts
  unfolding login_by claim claim_new enter
  by none (some v) a b = ((v, auth.login_user v s.session, inl (b, refl)), sound.0, sound.1)
  by none none a b =
      ((s.next_user, auth.login_user s.next_user s.session, inr (b, refl)), new_row.0, new_row.1)
  by (some u) none a b = elim (Bool-cases (any (is_linked u o.service) s.accounts)) [
    | inl taken ↦ rw taken (
      (s.next_user, auth.login_user s.next_user (auth.logout s.session), inr (b, refl)),
      new_row.0,
      new_row.1,
    )
    | inr free ↦ rw free (
      (u, a, inr (b, refl)),
      put_account-IsSeparate (record o { user = some u }) u s.accounts refl free sound.0,
      put_account-AreKnown s.next_user u (record o { user = some u }) s.accounts refl (sound.2 u a)
          sound.1,
    )
  ]
  by (some u) (some v) a b = elim (Bool-cases (u == v)) [
    | inl same ↦ rw same ((v, a ∙ ap some ((==_iff u v).0 same), inl (b, refl)), sound.0, sound.1)
    | inr other ↦
        rw other ((v, auth.login_user v (auth.logout s.session), inl (b, refl)), sound.0, sound.1)
  ]

  -- A login gives the session to the user of the owner. An owner that has a user keeps it, and no
  -- row of an owner is written; an owner without one gets one, and only its row is written. Still
  -- no two owners of one service have the same user, and all users of owners were created before.
  pub login_owner-EntersAs :
      EntersAs o s (login_owner auth o s)
      × IsSeparate (login_owner auth o s).accounts
      × AreKnown (login_owner auth o s).next_user (login_owner auth o s).accounts
  unfolding login_owner
  login_owner-EntersAs = by s.session.user o.user refl refl
