-- ===== src/Store/Accounts.antt =====
-- internal/store/store.go and password.go: the methods on accounts. Each is one SQL statement, or a
-- statement and a read; failures of the database itself are left out. A read gives the row as it is
-- stored: that a missing email is read as the empty text is left out.
use retro_vax_bbs.Prelude.{
  ℕ, ◌+◌, Text, Bool, true, false, not, ◌&&◌, ◌||◌, Option, none, some, [], ◌∷◌, ◌++◌, ltb, leb,
  ◌==◌, if◌then◌else◌,
}
use retro_vax_bbs.Store.Schema.{
  Status, pending, active, suspended, Role, user, User, Store, Error, not_found, username_taken,
  last_usable_admin, no_pending_account, not_suspended, constraint_failed, datetime, never_expires,
  is_pending, is_suspended, ban_lapsed, usable_admin, named, has_id, count_rows, update_rows,
  find_row, next_row_id, delete_users,
}

-- The state after a call, and its error, or none for nil.
abbrev pub Result : Type 0
Result = Store × Option Error

-- The row that an INSERT writes, with the schema's defaults.
unfoldable pub new_row : ℕ → ℕ → Text → Option Text → Text → Status → Role → User
new_row now id username email password_hash status role = record {
  id = id;
  username = username;
  password_hash = some password_hash;
  ssh_pubkey = none;
  status = status;
  role = role;
  plan_text = none;
  color_opt_in = false;
  admin_visible = false;
  failed_attempts = 0;
  locked_until = none;
  created_at = datetime now;
  last_login_at = none;
  email = email;
  banned_until = none;
  must_change_password = false;
}

-- INSERT INTO users, under the UNIQUE constraint on the name.
unfoldable pub insert : (ℕ → User) → Text → Store → Result
insert row username s =
    if leb 1 (count_rows (named username) s.users)
    then (s, some username_taken)
    else (record s { users = s.users ++ (row (next_row_id s.users) ∷ []) }, none)

-- CreateUser
unfoldable pub create_user : ℕ → Text → Text → Role → Store → Result
unfolding insert
create_user now username password_hash role s =
    insert (λ id. new_row now id username none password_hash active role) username s

-- GetUserByUsername and GetUserByID
unfoldable pub get_user_by_username : Text → Store → Option User
get_user_by_username username s = find_row (named username) s.users

unfoldable pub get_user_by_id : ℕ → Store → Option User
get_user_by_id id s = find_row (has_id id) s.users

-- nullableString
unfoldable pub nullable_string : Text → Option Text
nullable_string [] = none
nullable_string (c ∷ cs) = some (c ∷ cs)

-- status = 'pending' AND created_at < datetime('now', -age); ages are counts of whole seconds.
abbrev pub expired_pending : ℕ → ℕ → User → Bool
expired_pending now age u = is_pending u.status && ltb (u.created_at + age) (datetime now)

-- The first statement of CreatePendingAccount, whose error is dropped.
unfoldable pub free_username : Bool → ℕ → Text → ℕ → Store → Store
free_username enforced now username pending_expiry s =
    if ltb 0 pending_expiry
    then elim (delete_users enforced (λ u. named username u && expired_pending now pending_expiry u)
        s) [ none ↦ s | some t ↦ t ]
    else s

-- CreatePendingAccount
unfoldable pub create_pending_account : Bool → ℕ → Text → Text → Text → ℕ → Store → Result
unfolding insert free_username
create_pending_account enforced now username email password_hash pending_expiry s =
    insert (λ id. new_row now id username (nullable_string email) password_hash pending user)
      username (free_username enforced now username pending_expiry s)

-- PurgeExpiredPendingAccounts: the number of deleted rows, or no state for its error.
unfoldable pub purge_expired_pending_accounts : Bool → ℕ → ℕ → Store → Option (Store × ℕ)
purge_expired_pending_accounts enforced now max_age s =
    if max_age == 0
    then some (s, 0)
    else elim (delete_users enforced (expired_pending now max_age) s) [
      | none ↦ none
      | some t ↦ some (t, count_rows (expired_pending now max_age) s.users)
    ]

abbrev pub pending_named : Text → User → Bool
pending_named username u = named username u && is_pending u.status

-- ActivateAccount
unfoldable pub activate_account : Text → Store → Store
activate_account username s = record s {
  users = update_rows (pending_named username) (λ u. record u { status = active }) s.users;
}

-- ApprovePendingAccount
unfoldable pub approve_pending_account : Text → Store → Result
unfolding activate_account
approve_pending_account username s =
    if count_rows (pending_named username) s.users == 0
    then (s, some no_pending_account)
    else (activate_account username s, none)

-- What a method reports of a DELETE that failed, affected no row, or affected some.
unfoldable pub deleted : (Store → Error) → Store → Bool → Option Store → Result
deleted unaffected s none_affected none = (s, some constraint_failed)
deleted unaffected s none_affected (some t) =
    if none_affected then (t, some (unaffected t)) else (t, none)

-- RejectPendingAccount
unfoldable pub reject_pending_account : Bool → Text → Store → Result
reject_pending_account enforced username s =
    deleted (λ t. no_pending_account) s (count_rows (pending_named username) s.users == 0)
      (delete_users enforced (pending_named username) s)

-- CountUsableAdmins
unfoldable pub count_usable_admins : ℕ → Store → ℕ
count_usable_admins now s = count_rows (usable_admin now) s.users

-- The WHERE clause of BanUser and DeleteUser.
unfoldable pub guarded : ℕ → Text → Store → User → Bool
unfolding count_usable_admins
guarded now username s u =
    named username u && (not (usable_admin now u) || ltb 1 (count_usable_admins now s))

abbrev pub refusal_of : Option User → Error
refusal_of none = not_found
refusal_of (some u) = last_usable_admin

-- What BanUser and DeleteUser report of a statement that affected no row.
unfoldable pub refusal : Text → Store → Error
refusal username s = refusal_of (get_user_by_username username s)

-- The time that BanUser stores.
abbrev pub ban_until : Option ℕ → ℕ
ban_until none = never_expires
ban_until (some t) = t

-- BanUser; `until` is a count of seconds, or none for a permanent ban.
unfoldable pub ban_user : ℕ → Text → Option ℕ → Store → Result
unfolding guarded refusal
ban_user now username until s =
    if count_rows (guarded now username s) s.users == 0 then (s, some (refusal username s)) else (
      record s {
        users =
            update_rows (guarded now username s)
              (λ u. record u { status = suspended; banned_until = some (ban_until until) }) s.users;
      },
      none,
    )

-- UnbanUser
unfoldable pub unban_user : Text → Store → Result
unban_user username s =
    let banned : User → Bool = λ u. named username u && is_suspended u.status in
    if count_rows banned s.users == 0 then (s, some not_suspended) else (
      record s {
        users = update_rows banned (λ u. record u { status = active; banned_until = none }) s.users;
      },
      none,
    )

abbrev pub liftable : ℕ → ℕ → User → Bool
liftable now id u = has_id id u && (is_suspended u.status && ban_lapsed now u.banned_until)

-- CheckAndLiftExpiredBan
unfoldable pub check_and_lift_expired_ban : ℕ → ℕ → Store → Store × Bool
check_and_lift_expired_ban now id s = (
  record s {
    users =
        update_rows (liftable now id) (λ u. record u { status = active; banned_until = none })
          s.users;
  },
  ltb 0 (count_rows (liftable now id) s.users),
)

-- DeleteUser
unfoldable pub delete_user : Bool → ℕ → Text → Store → Result
unfolding guarded refusal
delete_user enforced now username s =
    deleted (refusal username) s (count_rows (guarded now username s) s.users == 0)
      (delete_users enforced (guarded now username s) s)

abbrev pub lockout_threshold : ℕ
lockout_threshold = 5

-- lockoutDuration, in seconds.
abbrev pub lockout_duration : ℕ
lockout_duration = 900

-- The SET clause of RecordFailedAttempt.
unfoldable pub failed_once : ℕ → User → User
failed_once now u = record u {
  failed_attempts = u.failed_attempts + 1;
  locked_until =
      if leb lockout_threshold (u.failed_attempts + 1)
      then some (datetime now + lockout_duration)
      else u.locked_until;
}

-- RecordFailedAttempt
unfoldable pub record_failed_attempt : ℕ → ℕ → Store → Store
unfolding failed_once
record_failed_attempt now id s = record s {
  users = update_rows (has_id id) (failed_once now) s.users;
}

-- ClearFailedAttempts
unfoldable pub clear_failed_attempts : ℕ → Store → Store
clear_failed_attempts id s = record s {
  users =
      update_rows (has_id id) (λ u. record u { failed_attempts = 0; locked_until = none }) s.users;
}

-- UpdateLastLogin
unfoldable pub update_last_login : ℕ → ℕ → Store → Store
update_last_login now id s = record s {
  users = update_rows (has_id id) (λ u. record u { last_login_at = some (datetime now) }) s.users;
}

abbrev pub found : Text → Store → Store → Result
found username s t =
    if count_rows (named username) s.users == 0 then (t, some not_found) else (t, none)

-- SetPassword
unfoldable pub set_password : Text → Text → Store → Result
set_password username password_hash s = found username s (record s {
  users =
      update_rows (named username)
        (λ u. record u { password_hash = some password_hash; must_change_password = false })
        s.users;
})

-- ExpirePassword
unfoldable pub expire_password : Text → Store → Result
expire_password username s = found username s (record s {
  users = update_rows (named username) (λ u. record u { must_change_password = true }) s.users;
})
