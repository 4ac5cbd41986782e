-- ===== src/Login/States.antt =====
-- codecov_auth/views/base.py, StateMixin: where a login redirects to.
use codecov_api.Base.{
  All, All-select, Bool, Bool-cases, IsIn, List, Option, Option-cases, String, [], and_iff, arith,
  either_iff, eq_iff, false, inl, inr, join, ltb, mem_str, mem_str_iff, none, not, refl, some,
  str_eq, subst, sym, true, ℕ, ◌&&◌, ◌+◌, ◌==◌, ◌||◌, ◌↔◌, ◌∙◌, ◌∷◌, ◌≡◌, ◌⊎◌,
}
use codecov_api.Login.{
  Entry, Redis, Site, Url, generate_redirection_url, generate_state, get_redirection_url_from_state,
  is_matching_cors_domains, is_valid_redirection, read, remove_found, remove_state, setex,
}

-- What a request, or the time that passes, does to the states.
pub data StateOp : Type 0 where
  generating : String → Option String → StateOp
  removing : String → ℕ → StateOp
  waiting : ℕ → StateOp

abbrev pub removed : Option Redis → Redis → Redis
removed none r = r
removed (some r') r = r'

unfoldable pub run_op : Site → StateOp → Redis → Redis
unfolding generate_state remove_state
run_op site (generating state to) r = generate_state site state to r
run_op site (removing state delay) r = removed (remove_state site state delay r) r
run_op site (waiting seconds) r = record r { clock = r.clock + seconds }

unfoldable pub run_ops : Site → List StateOp → Redis → Redis
unfolding run_op
run_ops site [] r = r
run_ops site (op ∷ ops) r = run_ops site ops (run_op site op r)

module _ (site : Site) where
  -- The page of the dashboard, or a text that urlparse reads: one in which it finds a path, but no
  -- scheme and no domain, or one whose scheme and domain CORS allows.
  abbrev pub IsAllowed : Url → Type 0
  IsAllowed u =
      ((u.scheme ≡ "") × ((u.netloc ≡ "") × (str_eq u.path "" ≡ false)))
      ⊎ IsIn (join u.scheme (join "://" u.netloc)) site.cors_allowed_origins
      ⊎ (site.matches_origin_regex (join u.scheme (join "://" u.netloc)) ≡ true)

  abbrev pub IsAccepted : String → Type 0
  IsAccepted url = (url ≡ site.dashboard) ⊎ ((u : Url) × (site.urlparse url ≡ some u) × IsAllowed u)

  not_iff : (b : Bool) → (not b ≡ true) ↔ (b ≡ false)
  not_iff true = ((λ h. cc), (λ h. cc))
  not_iff false = ((λ h. refl), (λ h. refl))

  read_as :
      (to : String) (u : Url)
      → site.urlparse to ≡ some u
      → is_valid_redirection site to ≡ (
          (str_eq u.scheme "" && (str_eq u.netloc "" && not (str_eq u.path "")))
          || (mem_str (join u.scheme (join "://" u.netloc)) site.cors_allowed_origins
              || site.matches_origin_regex (join u.scheme (join "://" u.netloc))))
  unfolding is_valid_redirection is_matching_cors_domains
  read_as to u e = ground (arith, e)

  allowed :
      (to : String) (u : Url)
      → site.urlparse to ≡ some u
      → is_valid_redirection site to ≡ true
      → IsAllowed u
  allowed to u e h =
      (either_iff _ _
          (and_iff _ _ (eq_iff u.scheme "")
            (and_iff _ _ (eq_iff u.netloc "") (not_iff (str_eq u.path ""))))
          (either_iff (mem_str (join u.scheme (join "://" u.netloc)) site.cors_allowed_origins)
            (site.matches_origin_regex (join u.scheme (join "://" u.netloc)))
            (mem_str_iff (join u.scheme (join "://" u.netloc)) site.cors_allowed_origins)
            ((λ x. x), (λ x. x)))).0
        (sym (read_as to u e) ∙ h)

  unread : (to : String) → site.urlparse to ≡ none → is_valid_redirection site to ≡ false
  unfolding is_valid_redirection
  unread to e = ground (arith, e)

  is_valid_redirection-IsAccepted :
      (to : String) → is_valid_redirection site to ≡ true → IsAccepted to
  is_valid_redirection-IsAccepted to h = elim (Option-cases (site.urlparse to)) [
    | inl e ↦ absurd (ground (arith, unread to e))
    | inr (u, e) ↦ inr (u, e, allowed to u e h)
  ]

  generate_redirection_url-IsAccepted :
      (to : Option String) → IsAccepted (generate_redirection_url site to)
  unfolding generate_redirection_url
  generate_redirection_url-IsAccepted none = inl refl
  generate_redirection_url-IsAccepted (some to) = elim (Bool-cases (str_eq to "")) [
    | inl e ↦ inl (rw e refl)
    | inr e ↦ elim (Bool-cases (is_valid_redirection site to)) [
      | inl v ↦ rw (e, v) (is_valid_redirection-IsAccepted to v)
      | inr v ↦ inl (rw (e, v) refl)
    ]
  ]

  -- An address that is read is accepted, where all that are stored are.
  abbrev ReadAccepted : Option String → Type 0
  ReadAccepted none = Unit
  ReadAccepted (some url) = IsAccepted url

  read-ReadAccepted :
      (state : String) (now : ℕ) (es : List Entry)
      → All (λ e. IsAccepted e.url) es
      → ReadAccepted (read state now es)
  unfolding read
  read-ReadAccepted state now [] a = tt
  read-ReadAccepted state now (e ∷ es) (s, a) =
      elim (Bool-cases (str_eq e.state state && ltb now e.until)) [
        | inl h ↦ rw h s
        | inr h ↦ rw h (read-ReadAccepted state now es a)
      ]

  removed-AllAccepted :
      (state : String) (delay : ℕ) (r : Redis) (found : Option String)
      → ReadAccepted found
      → All (λ e. IsAccepted e.url) r.stored
      → All (λ e. IsAccepted e.url) (removed (remove_found site state delay r found) r).stored
  unfolding remove_found setex
  removed-AllAccepted state delay r none safe a = a
  removed-AllAccepted state delay r (some url) safe a = elim (Bool-cases (delay == 0)) [
    | inl z ↦ rw z (All-select (λ e. IsAccepted e.url) (λ x. not (str_eq x.state state)) r.stored a)
    | inr z ↦
        rw z (safe, All-select (λ e. IsAccepted e.url) (λ x. not (str_eq x.state state)) r.stored a)
  ]

  run_op-AllAccepted :
      (op : StateOp) (r : Redis)
      → All (λ e. IsAccepted e.url) r.stored
      → All (λ e. IsAccepted e.url) (run_op site op r).stored
  unfolding run_op generate_state setex remove_state get_redirection_url_from_state
  run_op-AllAccepted (generating state to) r a = (
    generate_redirection_url-IsAccepted to,
    All-select (λ e. IsAccepted e.url) (λ x. not (str_eq x.state state)) r.stored a,
  )
  run_op-AllAccepted (removing state delay) r a =
      removed-AllAccepted state delay r (read state r.clock r.stored)
        (read-ReadAccepted state r.clock r.stored a) a
  run_op-AllAccepted (waiting seconds) r a = a

  run_ops-AllAccepted :
      (ops : List StateOp) (r : Redis)
      → All (λ e. IsAccepted e.url) r.stored
      → All (λ e. IsAccepted e.url) (run_ops site ops r).stored
  unfolding run_ops
  run_ops-AllAccepted [] r a = a
  run_ops-AllAccepted (op ∷ ops) r a =
      run_ops-AllAccepted ops (run_op site op r) (run_op-AllAccepted op r a)

  -- Whatever was asked for before, what a state redirects to is the page of the dashboard, or a text
  -- in which urlparse finds a path, but no scheme and no domain, or one whose scheme and domain are
  -- among those that CORS allows, by name or by pattern.
  pub get_redirection_url_from_state-IsAccepted :
      (ops : List StateOp) (clock : ℕ) (state url : String)
      → get_redirection_url_from_state state
          (run_ops site ops (record { clock = clock; stored = [] }))
        ≡ some url
      → IsAccepted url
  unfolding get_redirection_url_from_state
  get_redirection_url_from_state-IsAccepted ops clock state url h =
      let r = run_ops site ops (record { clock = clock; stored = [] }) in
      subst ReadAccepted h (read-ReadAccepted state r.clock r.stored (run_ops-AllAccepted ops _ tt))
