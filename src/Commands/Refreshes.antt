-- ===== src/Commands/Refreshes.antt =====
-- services/refresh.py: when a refresh is queued, and for how long it stands in the way of another.
use codecov_api.Base.{
  Bool, Bool-cases, List, Option, String, [], ap, arith, inl, inr, ltb, none, refl, some, subst,
  sym, ℕ, ◌++◌, ◌+◌, ◌<◌, ◌==◌, ◌∷◌, ◌≡◌, ◌≢◌, ◌≤◌, ◌⊎◌,
}
use codecov_api.Accounts.{RefreshEntry, TaskState, failed, pending, successful, unreadable}
use codecov_api.Store.{Outcome, World, ok, refresh}
use codecov_api.Commands.{drop_entry, entry_of, is_refreshing, refresh_expiry, trigger_refresh}

-- Redis has no entry of an earlier refresh, or the task of that refresh is over.
abbrev pub HasEnded : ℕ → World → Type 0
HasEnded i w =
    (entry_of i w.now w.accounts.refreshes ≡ none)
    ⊎ ((s : TaskState) × (entry_of i w.now w.accounts.refreshes ≡ some s) × (s ≢ pending))

abbrev started : ℕ → Option String → Bool → Bool → Bool → List RefreshEntry → World → World
started i username teams repos integration left w = record w {
  tasks = w.tasks ++ (refresh i username repos teams integration ∷ []);
  accounts = record w.accounts {
    refreshes =
        record { owner = i; task = pending; until = w.now + refresh_expiry } ∷ drop_entry i left;
  };
}

trigger-none :
    (i : ℕ) (username : Option String) (teams repos integration : Bool) (w : World)
    → entry_of i w.now w.accounts.refreshes ≡ none
    → trigger_refresh i username teams repos integration w
      ≡ (ok tt, started i username teams repos integration w.accounts.refreshes w)
unfolding trigger_refresh is_refreshing
trigger-none i username teams repos integration w e = ground arith

trigger-ended :
    (i : ℕ) (username : Option String) (teams repos integration : Bool) (w : World) (s : TaskState)
    → entry_of i w.now w.accounts.refreshes ≡ some s
    → s ≢ pending
    → trigger_refresh i username teams repos integration w
      ≡ (ok tt, started i username teams repos integration (drop_entry i w.accounts.refreshes) w)
unfolding trigger_refresh is_refreshing
trigger-ended i username teams repos integration w unreadable e n = ground arith
trigger-ended i username teams repos integration w successful e n = ground arith
trigger-ended i username teams repos integration w failed e n = ground arith
trigger-ended i username teams repos integration w pending e n = absurd (n refl)

trigger-pending :
    (i : ℕ) (username : Option String) (teams repos integration : Bool) (w : World)
    → entry_of i w.now w.accounts.refreshes ≡ some pending
    → trigger_refresh i username teams repos integration w ≡ (ok tt, w)
unfolding trigger_refresh is_refreshing
trigger-pending i username teams repos integration w e = ground arith

entry_of-drop_entry :
    (i now : ℕ) (entries : List RefreshEntry) → entry_of i now (drop_entry i entries) ≡ none
entry_of-drop_entry i now [] = refl
entry_of-drop_entry i now (e ∷ entries) = elim (Bool-cases (i == e.owner)) [
  | inl h ↦ rw h (entry_of-drop_entry i now entries)
  | inr h ↦ rw (h, h) (entry_of-drop_entry i now entries)
]

abbrev pub later : ℕ → World → World
later t w = record w { now = w.now + t }

-- What a call has done that queued a refresh, and what one does that comes a time `t` after it.
abbrev pub Once :
    ℕ
    → Option String
    → Bool
    → Bool
    → Bool
    → World
    → ℕ
    → Option String
    → Bool
    → Bool
    → Bool
    → Outcome (Unit {0}) × World
    → Type 0
Once i username teams repos integration w t username' teams' repos' integration' answer =
    let v = later t answer.1 in
    let again = trigger_refresh i username' teams' repos' integration' v in
    (answer.1.tasks ≡ w.tasks ++ (refresh i username repos teams integration ∷ []))
    × (((t < refresh_expiry) × (again ≡ (ok tt, v)))
        ⊎ ((refresh_expiry ≤ t)
            × (again.1.tasks ≡ v.tasks ++ (refresh i username' repos' teams' integration' ∷ []))))

module _ (i : ℕ) (username : Option String) (teams repos integration : Bool) (w : World) (t : ℕ)
    (username' : Option String) (teams' repos' integration' : Bool) where
  started-Once :
      (left : List RefreshEntry)
      → Once i username teams repos integration w t username' teams' repos' integration'
          (ok tt, started i username teams repos integration left w)
  started-Once left =
      let v = later t (started i username teams repos integration left w) in
      elim (Bool-cases (ltb t refresh_expiry)) [
        | inl soon ↦ (
          refl,
          inl (
            ground arith,
            trigger-pending i username' teams' repos' integration' v (ground arith),
          ),
        )
        | inr late ↦ (
          refl,
          inr (
            ground arith,
            ap (λ (answer : Outcome (Unit {0}) × World). answer.1.tasks)
                (trigger-none i username' teams' repos' integration' v
                  (ground (arith, entry_of-drop_entry i (w.now + t) left))),
          ),
        )
      ]

  -- A refresh that is asked for is queued, where redis has no entry of an earlier one or that one's
  -- task is over. For 900 seconds, while its task runs, asking again with whatever arguments queues
  -- nothing and changes nothing. After that its entry is gone, and asking again queues another
  -- refresh although the task still runs.
  pub trigger_refresh-Once :
      HasEnded i w
      → Once i username teams repos integration w t username' teams' repos' integration'
          (trigger_refresh i username teams repos integration w)
  trigger_refresh-Once (inl e) =
      subst (Once i username teams repos integration w t username' teams' repos' integration')
        (sym (trigger-none i username teams repos integration w e))
        (started-Once w.accounts.refreshes)
  trigger_refresh-Once (inr (s, e, n)) =
      subst (Once i username teams repos integration w t username' teams' repos' integration')
        (sym (trigger-ended i username teams repos integration w s e n))
        (started-Once (drop_entry i w.accounts.refreshes))
