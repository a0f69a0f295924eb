-- ===== src/Tests/Accounts.antt =====
-- The theorems on internal/store at concrete inputs.
use retro_vax_bbs.Prelude.{
  ℕ, ◌+◌, ◌*◌, ◌≤◌, ◌≡◌, refl, Text, codes, text_discrete, Bool, true, false, none, some, List, [],
  ◌∷◌, arith, Bool-cases, inl, inr, ltb, leb, All, length, if◌then◌else◌, ◌⊎◌, ◌↔◌,
}
use retro_vax_bbs.Store.Schema.{
  active, suspended, admin, User, Store, last_usable_admin, invite_invalid, named, count_rows,
  usable_admin, is_usable_admin, find_row, second,
}
use retro_vax_bbs.Store.Accounts.{
  count_usable_admins, ban_user, get_user_by_username, get_user_by_id, record_failed_attempt,
}
use retro_vax_bbs.Store.Admins.{Unique, Sound}
use retro_vax_bbs.Store.Invites.{
  granted, after, uses_of, validate_invite, validate_and_consume_invite,
}
use retro_vax_bbs.Store.Redemption.{granted_lem, consume-validate}
use retro_vax_bbs.Store.Plan.{
  text, IsSafe, strip_ansi, strip_from, strip_from-IsSafe, strip_ansi-fixed, get_plan-set_plan,
  get_plan, set_plan,
}
use retro_vax_bbs.Store.Histories.{Op, run, end_time}
use retro_vax_bbs.Store.LastAdmin.{run-Sound}
use retro_vax_bbs.Store.Lockout.{
  EndedJustNow, fail_all-Locked, Locked, fail_all, is_usable_admin-usable_admin,
}
use retro_vax_bbs.Store.Bans.{ban_user-done, ban_user-last}

abbrev noon : ℕ
noon = 1700000000 * second

abbrev system_row : User
system_row = record {
  id = 1;
  username = codes "SYSTEM";
  password_hash = some (codes "h");
  ssh_pubkey = none;
  status = active;
  role = admin;
  plan_text = none;
  color_opt_in = false;
  admin_visible = false;
  failed_attempts = 0;
  locked_until = none;
  created_at = 1600000000;
  last_login_at = none;
  email = none;
  banned_until = none;
  must_change_password = false;
}

abbrev one_admin : Store
one_admin = record {
  users = system_row ∷ [];
  invites =
      record {
        code = codes "VAX";
        created_by = 1;
        uses_remaining = 1;
        expires_at = some 1700000100;
      }
      ∷ [];
}

one_admin-Unique : Unique one_admin.users
unfolding count_rows
one_admin-Unique name = elim (Bool-cases (named name system_row)) [
  | inl e ↦ rw e (omega arith)
  | inr e ↦ rw e (omega arith)
]

one_admin-usable : count_usable_admins noon one_admin ≡ 1
unfolding count_usable_admins count_rows usable_admin
one_admin-usable = refl

one_admin-Sound : Sound noon one_admin
one_admin-Sound = (one_admin-Unique, omega (arith, one_admin-usable))

-- The printable runes of ASCII.
abbrev is_ascii : ℕ → Bool
is_ascii r = if leb 32 r then ltb r 127 else false

abbrev keep_all : Text → Text
keep_all s = s

abbrev calls : List (ℕ × Op)
calls =
    (0, Op.create_user (codes "BOB") (codes "h") admin)
    ∷ (second, Op.ban_user (codes "SYSTEM") none)
    ∷ (second, Op.delete_user (codes "BOB"))
    ∷ []

run-Sound_example : Sound (end_time noon calls) (run true is_ascii keep_all noon calls one_admin)
run-Sound_example =
    run-Sound true is_ascii keep_all noon calls one_admin (end_time noon calls) one_admin-Sound
      (omega arith)

system_found : get_user_by_username (codes "SYSTEM") one_admin ≡ some system_row
unfolding get_user_by_username find_row named text_discrete
system_found = refl

system_usable : usable_admin noon system_row ≡ true
unfolding usable_admin
system_usable = refl

ban_user-last_example :
    ban_user noon (codes "SYSTEM") none one_admin ≡ (one_admin, some last_usable_admin)
ban_user-last_example =
    ban_user-last noon (codes "SYSTEM") none one_admin system_row one_admin-Unique system_found
      system_usable (omega (arith, one_admin-usable))

abbrev suspended_row : User
suspended_row = record system_row { status = suspended; banned_until = some 1700000050 }

abbrev one_suspended : Store
one_suspended = record one_admin { users = suspended_row ∷ [] }

one_suspended-Unique : Unique one_suspended.users
unfolding count_rows
one_suspended-Unique name = elim (Bool-cases (named name suspended_row)) [
  | inl e ↦ rw e (omega arith)
  | inr e ↦ rw e (omega arith)
]

suspended_found : get_user_by_username (codes "SYSTEM") one_suspended ≡ some suspended_row
unfolding get_user_by_username find_row named text_discrete
suspended_found = refl

suspended_unusable : usable_admin noon suspended_row ≡ false
unfolding usable_admin
suspended_unusable = refl

ban_user-done_example :
    ((ban_user noon (codes "SYSTEM") (some 1700000600) one_suspended).1 ≡ none)
    × (get_user_by_username
          (codes "SYSTEM")
          (ban_user noon (codes "SYSTEM") (some 1700000600) one_suspended).0
        ≡ some (record suspended_row { status = suspended; banned_until = some 1700000600 }))
ban_user-done_example =
    ban_user-done noon (codes "SYSTEM") (some 1700000600) one_suspended suspended_row
      one_suspended-Unique suspended_found (inl suspended_unusable)

system_by_id : get_user_by_id 1 one_admin ≡ some system_row
unfolding get_user_by_id find_row
system_by_id = refl

abbrev times : List ℕ
times = noon ∷ noon ∷ noon ∷ noon ∷ []

fail_all-Locked_example :
    Locked noon 5 system_row
      (get_user_by_id 1 (record_failed_attempt noon 1 (fail_all times 1 one_admin)))
fail_all-Locked_example = fail_all-Locked times noon 1 one_admin system_row system_by_id

-- The second in which the ban ends.
abbrev lapsing : ℕ
lapsing = 1700000050 * second + 1

is_usable_admin-usable_admin_example :
    (is_usable_admin lapsing suspended_row ≡ usable_admin lapsing suspended_row)
    ⊎ ((is_usable_admin lapsing suspended_row ≡ true)
        × (usable_admin lapsing suspended_row ≡ false)
        × EndedJustNow lapsing suspended_row.banned_until)
is_usable_admin-usable_admin_example = is_usable_admin-usable_admin lapsing suspended_row

abbrev attempts : List (ℕ × Text)
attempts = (noon, codes "VAX") ∷ (noon, codes "PDP") ∷ (noon, codes "VAX") ∷ []

granted_lem_example :
    granted (codes "VAX") attempts one_admin + uses_of (codes "VAX") (after attempts one_admin)
    ≡ uses_of (codes "VAX") one_admin
granted_lem_example = granted_lem (codes "VAX") attempts one_admin

consume-validate_example :
    ((validate_invite noon (codes "VAX") one_admin ≡ none)
      × ((validate_and_consume_invite noon (codes "VAX") one_admin).1 ≡ none)
      × (uses_of (codes "VAX") one_admin
          ≡ uses_of (codes "VAX") (validate_and_consume_invite noon (codes "VAX") one_admin).0 + 1))
    ⊎ ((validate_invite noon (codes "VAX") one_admin ≡ some invite_invalid)
        × (validate_and_consume_invite noon (codes "VAX") one_admin
            ≡ (one_admin, some invite_invalid)))
consume-validate_example = consume-validate noon (codes "VAX") one_admin

strip_from-IsSafe_example :
    All (IsSafe is_ascii) (strip_from is_ascii text (27 ∷ 91 ∷ 51 ∷ 109 ∷ 65 ∷ 7 ∷ 10 ∷ []))
strip_from-IsSafe_example = strip_from-IsSafe is_ascii text (27 ∷ 91 ∷ 51 ∷ 109 ∷ 65 ∷ 7 ∷ 10 ∷ [])

abbrev title : Text
title = 27 ∷ 93 ∷ 48 ∷ 7 ∷ 65 ∷ []

strip_ansi-fixed_example :
    ((strip_ansi is_ascii title ≡ title) ↔ All (IsSafe is_ascii) title)
    × (strip_ansi is_ascii (strip_ansi is_ascii title) ≡ strip_ansi is_ascii title)
strip_ansi-fixed_example = strip_ansi-fixed is_ascii title

plan_short : length (strip_ansi is_ascii (codes "HELLO")) ≤ 512
unfolding strip_ansi strip_from
plan_short = omega arith

get_plan-set_plan_example :
    (get_plan
        (codes "SYSTEM")
        (set_plan is_ascii keep_all (codes "SYSTEM") (codes "HELLO") one_admin).0
      ≡ some (strip_ansi is_ascii (codes "HELLO")))
    × ((set_plan is_ascii keep_all (codes "SYSTEM") (codes "HELLO") one_admin).1 ≡ none)
get_plan-set_plan_example =
    get_plan-set_plan is_ascii keep_all (codes "SYSTEM") (codes "HELLO") one_admin system_row
      system_found plan_short
