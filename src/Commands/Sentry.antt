-- ===== src/Commands/Sentry.antt =====
-- services/sentry.py and graphql_api/types/mutation/save_sentry_state: an owner is linked with a user
-- of Sentry, whom no other owner has.
use codecov_api.Base.{
  Bool, List, Option, String, any, false, if◌then◌else◌, none, not, opt_str_eq, some, ℕ, ◌&&◌, ◌==◌,
}
use codecov_api.Owner.{Owner}
use codecov_api.Accounts.{OwnerColumns}
use codecov_api.Store.{
  Exec, attribute_error, ok, pure, raise, save, validation_error, value_error, ◌>>=◌,
}
use codecov_api.Commands.{Caller}
use codecov_api.Commands.Owners.{
  Forms, Token, claims, columns_in, refused, set_columns, undecodable,
}

-- Another row has the user: sentry_user_id is unique.
abbrev pub is_claimed : ℕ → String → List OwnerColumns → Bool
is_claimed i user = any λ r. not (r.owner == i) && opt_str_eq r.sentry_user_id (some user)

abbrev pub set_sentry : Option String → String → OwnerColumns → OwnerColumns
set_sentry none payload r = record r { sentry_user_data = some payload }
set_sentry (some user) payload r = record r {
  sentry_user_id = some user;
  sentry_user_data = some payload;
}

-- The row that is saved, unless the database refuses it.
unfoldable pub save_linked : Owner → Option String → String → Exec (Unit {0})
unfolding save
save_linked owner user payload = do
  columns ← λ w. (ok w.accounts.columns, w)
  let linked = (set_sentry user payload (columns_in owner.ownerid columns)).sentry_user_id
  let clash = elim linked as (λ _. Bool) [
    | none ↦ false
    | some u ↦ is_claimed owner.ownerid u columns
  ]
  if clash
      then raise validation_error
      else (do _ ← set_columns owner.ownerid (set_sentry user payload); _ ← save owner; pure tt)

unfoldable pub save_decoded : Option Owner → Token → Exec (Unit {0})
unfolding save_linked
save_decoded owner refused = raise value_error
save_decoded none (claims user claimed) = raise attribute_error
save_decoded none undecodable = raise attribute_error
save_decoded (some owner) undecodable = raise validation_error
save_decoded (some owner) (claims user claimed) = save_linked owner user claimed

-- resolve_save_sentry_state, which answers both errors of the service with a ValidationError.
unfoldable pub save_sentry_state : Forms → Caller → String → Exec (Unit {0})
unfolding save_decoded
save_sentry_state forms c state = save_decoded c.current_owner (forms.jwt_decode state)
