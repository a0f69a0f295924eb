-- ===== src/Server/Bootstrap.antt =====
-- cmd/server/main.go: bootstrapAdminAccount. A call of log.Fatal, which ends the program, is none.
use retro_vax_bbs.Prelude.{
  ℕ, ◌+◌, Text, codes, not, ◌&&◌, ◌||◌, Option, none, some, ltb, leb, if◌then◌else◌,
}
use retro_vax_bbs.Registry.State.{is_empty}
use retro_vax_bbs.Phone.Calls.Admission.{equal_fold}
use retro_vax_bbs.Store.Schema.{User, Store, admin, is_admin, is_suspended, find_row}
use retro_vax_bbs.Store.Accounts.{
  Result, get_user_by_username, create_user, set_password, unban_user, count_usable_admins,
}
use retro_vax_bbs.Registration.Model.{Hashed, hashed, hash_failed}

-- COLLATE NOCASE, which folds the letters of ASCII.
unfoldable pub nocase : ℕ → ℕ
nocase c = if leb 65 c && leb c 90 then c + 32 else c

-- GetUserByUsernameCI
unfoldable pub get_user_by_username_ci : Text → Store → Option User
unfolding nocase
get_user_by_username_ci username s = find_row (λ u. equal_fold nocase u.username username) s.users

-- log.Fatalf on an error.
unfoldable pub or_fatal : Result → Option Store
or_fatal (s, none) = some s
or_fatal (s, some e) = none

unfoldable pub create_admin : ℕ → Text → Store → Hashed → Option Store
unfolding or_fatal
create_admin now username s (hash_failed e) = none
create_admin now username s (hashed h) = or_fatal (create_user now username h admin s)

unfoldable pub unban_next : Text → Result → Option Store
unfolding or_fatal
unban_next username (s, none) = or_fatal (unban_user username s)
unban_next username (s, some e) = none

unfoldable pub recover_admin : Text → Store → Hashed → Option Store
unfolding unban_next
recover_admin username s (hash_failed e) = none
recover_admin username s (hashed h) = unban_next username (set_password username h s)

-- The case of no account of that very name: another case of the name is fatal.
unfoldable pub create_unless : ℕ → Text → Store → Hashed → Option User → Option Store
unfolding create_admin
create_unless now username s h (some u) = none
create_unless now username s h none = create_admin now username s h

-- The switch over the account of that name.
unfoldable pub boot_existing : ℕ → Text → Store → Hashed → Option User → Option Store
unfolding create_unless recover_admin
boot_existing now username s h none =
    create_unless now username s h (get_user_by_username_ci username s)
boot_existing now username s h (some u) =
    if not (is_admin u.role)
    then none
    else if not (is_suspended u.status)
    then none
    else recover_admin username s h

-- bootstrapAdminAccount
unfoldable pub bootstrap_admin_account :
    (ℕ → ℕ) → (Text → Hashed) → ℕ → Text → Text → Store → Option Store
unfolding boot_existing
bootstrap_admin_account fold hash now username password s =
    if is_empty username && is_empty password
    then some s
    else if is_empty username || is_empty password
    then none
    else if equal_fold fold username (codes "new")
    then none
    else if ltb 0 (count_usable_admins now s)
    then some s
    else boot_existing now username s (hash password) (get_user_by_username username s)
