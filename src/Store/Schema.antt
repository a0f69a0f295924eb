-- ===== src/Store/Schema.antt =====
-- internal/store/store.go: the rows of the two tables, the clock, the predicate of a usable admin and
-- the SQL statements that the methods are made of. A stored time is a count of seconds since 1970; the
-- current time, as Go reads it, is a count of nanoseconds, and datetime('now') is its whole seconds.
use retro_vax_bbs.Prelude.{
  ℕ, suc, ◌*◌, ◌/◌, Text, text_discrete, Bool, true, false, not, ◌&&◌, ◌||◌, Option, none, some,
  List, [], ◌∷◌, any, ltb, ◌==◌, if◌then◌else◌, ite,
}

pub data Status : Type 0 where
  pending : Status
  active : Status
  suspended : Status

pub data Role : Type 0 where
  user : Role
  admin : Role

pub record User : Type 0 where
  pub id : ℕ
  pub username : Text
  pub password_hash : Option Text
  pub ssh_pubkey : Option Text
  pub status : Status
  pub role : Role
  pub plan_text : Option Text
  pub color_opt_in : Bool
  pub admin_visible : Bool
  pub failed_attempts : ℕ
  pub locked_until : Option ℕ
  pub created_at : ℕ
  pub last_login_at : Option ℕ
  pub email : Option Text
  pub banned_until : Option ℕ
  pub must_change_password : Bool

pub record Invite : Type 0 where
  pub code : Text
  pub created_by : ℕ
  pub uses_remaining : ℕ
  pub expires_at : Option ℕ

pub record Store : Type 0 where
  pub users : List User
  pub invites : List Invite

pub data Error : Type 0 where
  not_found : Error
  username_taken : Error
  last_usable_admin : Error
  invite_invalid : Error
  plan_too_long : Error
  no_pending_account : Error
  not_suspended : Error
  -- A constraint of the schema refused the statement.
  constraint_failed : Error

abbrev pub second : ℕ
second = 1000000000

-- datetime('now')
abbrev pub datetime : ℕ → ℕ
datetime now = now / second

-- The first second of the year 2090, and of NeverExpires.
abbrev pub year_2090 : ℕ
year_2090 = 3786912000

abbrev pub never_expires : ℕ
never_expires = 4102444799

abbrev pub is_pending : Status → Bool
is_pending pending = true
is_pending active = false
is_pending suspended = false

abbrev pub is_active : Status → Bool
is_active pending = false
is_active active = true
is_active suspended = false

abbrev pub is_suspended : Status → Bool
is_suspended pending = false
is_suspended active = false
is_suspended suspended = true

abbrev pub is_admin : Role → Bool
is_admin user = false
is_admin admin = true

-- banned_until IS NOT NULL AND banned_until < datetime('now') AND its year < 2090
abbrev pub ban_lapsed : ℕ → Option ℕ → Bool
ban_lapsed now none = false
ban_lapsed now (some t) = ltb t (datetime now) && ltb t year_2090

-- usableAdminPredicate
unfoldable pub usable_admin : ℕ → User → Bool
usable_admin now u =
    is_admin u.role
    && (is_active u.status || (is_suspended u.status && ban_lapsed now u.banned_until))

-- BannedUntil.Valid, Before(time.Now()) and Year() < 2090
abbrev pub ban_over : ℕ → Option ℕ → Bool
ban_over now none = false
ban_over now (some t) = ltb (t * second) now && ltb t year_2090

-- User.IsUsableAdmin
unfoldable pub is_usable_admin : ℕ → User → Bool
is_usable_admin now u =
    if not (is_admin u.role)
    then false
    else if is_active u.status
    then true
    else is_suspended u.status && ban_over now u.banned_until

-- username = ?
unfoldable pub named : Text → User → Bool
named username u = ite (text_discrete u.username username) true false

-- id = ?
abbrev pub has_id : ℕ → User → Bool
has_id k u = u.id == k

-- SELECT COUNT(*) FROM users WHERE p, and the rows that a statement affects.
unfoldable pub count_rows : (User → Bool) → List User → ℕ
count_rows p [] = 0
count_rows p (u ∷ us) = if p u then suc (count_rows p us) else count_rows p us

-- UPDATE users SET f WHERE p
unfoldable pub update_rows : (User → Bool) → (User → User) → List User → List User
update_rows p f [] = []
update_rows p f (u ∷ us) = (if p u then f u else u) ∷ update_rows p f us

-- DELETE FROM users WHERE p
unfoldable pub delete_rows : (User → Bool) → List User → List User
delete_rows p [] = []
delete_rows p (u ∷ us) = let rest = delete_rows p us in if p u then rest else u ∷ rest

-- SELECT ... FROM users WHERE p, its first row.
unfoldable pub find_row : (User → Bool) → List User → Option User
find_row p [] = none
find_row p (u ∷ us) = if p u then some u else find_row p us

-- One more than the largest row id.
unfoldable pub next_row_id : List User → ℕ
next_row_id [] = 1
next_row_id (u ∷ us) = let rest = next_row_id us in if ltb u.id rest then rest else suc u.id

-- Whether an invite refers to the row.
unfoldable pub referenced : List Invite → User → Bool
referenced is u = any (λ (i : Invite). i.created_by == u.id) is

-- DELETE under the foreign key of the invites, which SQLite checks on a connection where
-- `PRAGMA foreign_keys = ON` was run (`enforced`): the statement fails as a whole.
unfoldable pub delete_users : Bool → (User → Bool) → Store → Option Store
unfolding delete_rows
delete_users enforced p s =
    if enforced && (any (λ u. p u && referenced s.invites u) s.users)
    then none
    else some (record s { users = delete_rows p s.users })
