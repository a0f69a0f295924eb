-- ===== src/Server/Login.antt =====
-- cmd/server/main.go: the password handlers of the two listeners. The check of a password against a
-- stored hash (auth.VerifyPassword) and the folding of strings.EqualFold are parameters.
use retro_vax_bbs.Prelude.{
  ℕ, ◌*◌, Text, codes, Bool, true, false, not, Option, none, some, ltb, if◌then◌else◌,
}
use retro_vax_bbs.Phone.Calls.State.{same}
use retro_vax_bbs.Phone.Calls.Admission.{equal_fold}
use retro_vax_bbs.Store.Schema.{User, Store, active, is_active, is_suspended, is_admin, second}
use retro_vax_bbs.Store.Accounts.{
  get_user_by_username, check_and_lift_expired_ban, record_failed_attempt, clear_failed_attempts,
  update_last_login,
}

-- What VerifyPassword returns: true, false, or an error.
pub data Verdict : Type 0 where
  matches mismatch malformed : Verdict

-- What a handler decides; a registration carries the mode on.
pub data Outcome : Type 0 where
  refused entered : Outcome
  registers : Text → Outcome

-- LockedUntil.Valid && LockedUntil.Time.After(time.Now())
unfoldable pub locked : ℕ → Option ℕ → Bool
locked now none = false
locked now (some t) = ltb now (t * second)

unfoldable pub verified : ℕ → User → Store → Verdict → Store × Outcome
verified now u s Verdict.malformed = (s, Outcome.refused)
verified now u s Verdict.mismatch = (record_failed_attempt now u.id s, Outcome.refused)
verified now u s Verdict.matches =
    (update_last_login now u.id (clear_failed_attempts u.id s), Outcome.entered)

-- The check of the stored hash, if there is one.
unfoldable pub checked :
    (Text → Text → Verdict) → ℕ → User → Text → Store → Option Text → Store × Outcome
unfolding verified
checked verify now u password s none = (s, Outcome.refused)
checked verify now u password s (some hash) = verified now u s (verify password hash)

-- completeAuth
unfoldable pub complete_auth : (Text → Text → Verdict) → ℕ → User → Text → Store → Store × Outcome
unfolding locked checked
complete_auth verify now u password s =
    if not (is_active u.status)
    then (s, Outcome.refused)
    else if locked now u.locked_until
    then (s, Outcome.refused)
    else checked verify now u password s u.password_hash

-- The lift of an expired ban, as it is read back: the account, and the store.
unfoldable pub lifted : ℕ → User → Store → User × Store
lifted now u s =
    let done = check_and_lift_expired_ban now u.id s in
    if is_suspended u.status
    then (if done.1 then record u { status = active } else u, done.0)
    else (u, s)

abbrev pub lift_and_complete : (Text → Text → Verdict) → ℕ → Text → User × Store → Store × Outcome
lift_and_complete verify now password (u, s) = complete_auth verify now u password s

-- A listener takes the accounts of a role.
unfoldable pub admit_account :
    Bool → (Text → Text → Verdict) → ℕ → Text → Store → Option User → Store × Outcome
unfolding complete_auth lifted
admit_account wants_admin verify now password s none = (s, Outcome.refused)
admit_account true verify now password s (some u) =
    if not (is_admin u.role)
    then (s, Outcome.refused)
    else lift_and_complete verify now password (lifted now u s)
admit_account false verify now password s (some u) =
    if is_admin u.role
    then (s, Outcome.refused)
    else lift_and_complete verify now password (lifted now u s)

-- publicPasswordHandler
unfoldable pub public_password_handler :
    (ℕ → ℕ) → (Text → Text → Verdict) → Text → ℕ → Text → Text → Store → Store × Outcome
unfolding admit_account
public_password_handler fold verify reg_mode now username password s =
    if equal_fold fold username (codes "new")
    then (if same reg_mode (codes "closed")
        then (s, Outcome.refused)
        else (s, Outcome.registers reg_mode))
    else admit_account false verify now password s (get_user_by_username username s)

-- adminPasswordHandler
unfoldable pub admin_password_handler :
    (Text → Text → Verdict) → ℕ → Text → Text → Store → Store × Outcome
unfolding admit_account
admin_password_handler verify now username password s =
    admit_account true verify now password s (get_user_by_username username s)
