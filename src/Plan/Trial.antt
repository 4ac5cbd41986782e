-- ===== src/Plan/Trial.antt =====
-- plan/service.py: the life of a trial, over the methods of `PlanService`.
use codecov_api.Base.{
  List, String, [], arith, if◌then◌else◌, is_some, ltb, true, ℕ, ◌*◌, ◌+◌, ◌<◌, ◌∷◌, ◌≡◌, ◌≤◌, ◌⊎◌,
}
use codecov_api.Store.{Exec, Outcome, World, err, ok, validation_error}
use codecov_api.Plan.{cannot_trial, expired, ongoing}
use codecov_api.Plan.Service.{
  PlanService, cancel_trial, day, expire_trial, set_default_plan_data, start_trial, trial_status,
  update_plan,
}

module _ (s t : PlanService) (w w' : World) (u : ℕ) where
  -- When starting a trial succeeds, then from that moment on the trial is ongoing for 14 days, these
  -- included, and expired afterwards.
  pub trial_status-start_trial :
      start_trial s w ≡ (ok t, w')
      → w.now ≤ u
      → trial_status t.current_org u ≡ (if ltb (w.now + 14 * day) u then ok expired else ok ongoing)
  unfolding start_trial
  trial_status-start_trial h later = ground arith

  -- When cancelling a trial succeeds, then at any later moment the trial is expired, or the
  -- organisation counts as one that cannot have a trial.
  pub trial_status-cancel_trial :
      cancel_trial s w ≡ (ok t, w')
      → w.now < u
      → (trial_status t.current_org u ≡ ok expired)
        ⊎ (trial_status t.current_org u ≡ ok cannot_trial)
  unfolding cancel_trial
  trial_status-cancel_trial h later = ground arith

-- The calls that change an organisation's plan or trial.
pub data PlanOp : Type 0 where
  updates : String → ℕ → PlanOp
  defaults starts cancels expires : PlanOp

abbrev pub perform : PlanOp → PlanService → Exec PlanService
perform (updates name user_count) s = update_plan name user_count s
perform defaults s = set_default_plan_data s
perform starts s = start_trial s
perform cancels s = cancel_trial s
perform expires s = expire_trial s

-- A call that raises leaves the service and the database as they were.
abbrev pub settle : PlanService → Outcome PlanService × World → PlanService × World
settle s (ok t, w) = (t, w)
settle s (err e, w) = (s, w)

-- Calls in order, each after some time has passed.
pub run : List (ℕ × PlanOp) → PlanService × World → PlanService × World
run [] (s, w) = (s, w)
run ((delay, op) ∷ ops) (s, w) =
    run ops (settle s (perform op s (record w { now = w.now + delay })))

abbrev HasEnd : PlanService × World → Type 0
HasEnd (s, w) = is_some s.current_org.trial_end_date ≡ true

perform-HasEnd :
    (op : PlanOp) (s : PlanService) (w : World) → HasEnd (s, w) → HasEnd (settle s (perform op s w))
unfolding update_plan set_default_plan_data start_trial cancel_trial expire_trial
perform-HasEnd (updates name user_count) s w h = ground arith
perform-HasEnd defaults s w h = ground arith
perform-HasEnd starts s w h = ground arith
perform-HasEnd cancels s w h = ground arith
perform-HasEnd expires s w h = ground arith

run-HasEnd :
    (ops : List (ℕ × PlanOp)) (s : PlanService) (w : World)
    → HasEnd (s, w)
    → HasEnd (run ops (s, w))
unfolding run
run-HasEnd [] s w h = h
run-HasEnd ((delay, op) ∷ ops) s w h =
    let w' : World = record w { now = w.now + delay } in
    run-HasEnd ops (settle s (perform op s w')).0 (settle s (perform op s w')).1
      (perform-HasEnd op s w' h)

start_trial-HasEnd :
    (s : PlanService) (w : World) → HasEnd (s, w) → start_trial s w ≡ (err validation_error, w)
unfolding start_trial
start_trial-HasEnd s w h = ground arith

start_gives_end : (s t : PlanService) (w w' : World) → start_trial s w ≡ (ok t, w') → HasEnd (t, w')
unfolding start_trial
start_gives_end s t w w' h = ground arith

-- Once a trial has started, whatever calls follow and however late, starting a trial raises a
-- validation error and changes nothing.
pub start_trial_once :
    (s t : PlanService) (w w' : World) (ops : List (ℕ × PlanOp))
    → start_trial s w ≡ (ok t, w')
    → let after = run ops (t, w') in start_trial after.0 after.1 ≡ (err validation_error, after.1)
start_trial_once s t w w' ops h =
    start_trial-HasEnd (run ops (t, w')).0 (run ops (t, w')).1
      (run-HasEnd ops t w' (start_gives_end s t w w' h))
