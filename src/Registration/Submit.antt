-- ===== src/Registration/Submit.antt =====
-- internal/registration/app.go: Update, submit and finalise.
use retro_vax_bbs.Prelude.{
  ℕ, Text, codes, Bool, true, false, Option, none, some, List, [], ◌∷◌, ◌++◌, if◌then◌else◌,
}
use retro_vax_bbs.Registry.Event.{EventType}
use retro_vax_bbs.Registry.State.{Registry, notify_admins, is_empty}
use retro_vax_bbs.Registry.Decimal.{format_uint}
use retro_vax_bbs.Phone.Viewport.{drop_last}
use retro_vax_bbs.Phone.Calls.State.{same}
use retro_vax_bbs.Phone.Screen.Model.{utf8}
use retro_vax_bbs.Store.Schema.{User, Store, Error, username_taken}
use retro_vax_bbs.Store.Accounts.{
  Result, get_user_by_username, create_pending_account, activate_account, reject_pending_account,
}
use retro_vax_bbs.Store.Invites.{validate_invite, validate_and_consume_invite}
use retro_vax_bbs.Registration.Model.{
  Step, Model, Hashed, hashed, hash_failed, Env, System, is_invite_only, validate_username,
  validate_password,
}

-- tea.KeyMsg, as far as Update tells its types apart.
pub data Key : Type 0 where
  interrupt enter backspace : Key
  runes : List ℕ → Key
  other : Key

unfoldable pub fail : Text → Step → Model → Model
fail text step m = record m { err_msg = text; step = step; input = [] }

unfoldable pub finish : Text → Model → Model
finish text m = record m { result = text; step = Step.done }

-- Moves to a step with an empty input.
unfoldable pub next_step : Step → Model → Model
next_step step m = record m { step = step; input = [] }

abbrev pub created_text : Text → Text
created_text username =
    codes "Account '"
    ++ (username
        ++ (codes "' created and activated!"
            ++ (10 ∷ 10 ∷ [])
            ++ codes "You may now reconnect and log in with your new credentials."
            ++ (10 ∷ 10 ∷ [])
            ++ codes "Press Enter to disconnect."))

abbrev pub email_note : Text → Text
email_note [] = []
email_note (c ∷ cs) = 10 ∷ codes "You provided " ++ ((c ∷ cs) ++ codes " as a contact address.")

abbrev pub submitted_text : Text → Text → Text
submitted_text username email =
    codes "Registration request submitted for '"
    ++ (username
        ++ (codes "'."
            ++ (email_note email
                ++ ((10 ∷ 10 ∷ [])
                    ++ codes "An administrator will review your request. Please check back later"
                    ++ (10 ∷ [])
                    ++ codes "or wait to be contacted by the system administrator."
                    ++ (10 ∷ 10 ∷ [])
                    ++ codes "Press Enter to disconnect."))))

abbrev pub id_text : Option User → Text
id_text none = format_uint 0
id_text (some u) = format_uint u.id

-- The end of the invite-only mode: the code is consumed, or the new account goes again.
unfoldable pub redeemed : Env → Model → Registry → Result → Model × System
unfolding fail finish
redeemed env m reg (db, none) =
    (finish (created_text m.username) m, record { db = activate_account m.username db; reg = reg })
redeemed env m reg (db, some e) = (
  fail (codes "Invite code is no longer valid or has been used up. Please restart registration.")
      Step.username m,
  record { db = (reject_pending_account env.enforced m.username db).0; reg = reg },
)

-- The end of the other mode: the admins are told.
unfoldable pub submitted : Model → Registry → Store → Model × System
unfolding finish
submitted m reg db = (
  finish (submitted_text m.username m.email) m,
  record {
    db = db;
    reg =
        notify_admins
          (record {
            type = EventType.admin_notify;
            call_id = codes "reg:" ++ id_text (get_user_by_username m.username db);
            caller = m.username;
            callee = [];
          })
          reg;
  },
)

abbrev pub refused_text : Env → Error → Text
refused_text env username_taken =
    codes "Username was taken while you were registering. Please restart."
refused_text env e = codes "Could not create account: " ++ env.describe e

-- finalise, once the account is created or refused.
unfoldable pub created : Env → Model → Registry → Result → Model × System
unfolding redeemed submitted fail
created env m reg (db, some e) =
    (fail (refused_text env e) Step.username m, record { db = db; reg = reg })
created env m reg (db, none) =
    if is_invite_only m.mode
    then redeemed env m reg (validate_and_consume_invite env.now m.invite db)
    else submitted m reg db

unfoldable pub finalise_with : Env → Model → System → Hashed → Model × System
unfolding created finish
finalise_with env m s (hash_failed e) =
    (finish (codes "Internal error: " ++ (e ++ (10 ∷ codes "Please try again later."))) m, s)
finalise_with env m s (hashed h) =
    created env m s.reg
      (create_pending_account env.enforced env.now m.username m.email h m.pending_expiry s.db)

-- finalise
unfoldable pub finalise : Env → Model → System → Model × System
unfolding finalise_with
finalise env m s = finalise_with env m s (env.hash m.password)

abbrev pub is_some {ℓ} : {A : Type ℓ} → Option A → Bool
is_some none = false
is_some (some x) = true

-- The case of stateUsername, given the error of the name's check.
unfoldable pub submit_username : Model → System → Option Text → Model
unfolding next_step
submit_username m s (some e) = record m { err_msg = e }
submit_username m s none =
    if is_some (get_user_by_username m.input s.db)
    then record m { err_msg = codes "Username already taken. Please choose another."; input = [] }
    else next_step (if is_invite_only m.mode then Step.invite_code else Step.email)
        (record m { username = m.input })

unfoldable pub submit_invite : Text → Model → Option Error → Model
unfolding next_step
submit_invite code m none = next_step Step.password (record m { invite = code })
submit_invite code m (some e) = record m {
  err_msg = codes "Invite code is invalid or has expired. Please try again.";
  input = [];
}

unfoldable pub submit_password : Model → Option Text → Model
unfolding next_step
submit_password m none = next_step Step.confirm (record m { password = m.input })
submit_password m (some e) = record m { err_msg = e; input = [] }

-- submit, by the step.
unfoldable pub submit_at : Step → Env → Model → System → Model × System
unfolding submit_username submit_invite submit_password finalise fail next_step
submit_at Step.username env m s = (submit_username m s (validate_username env m.input), s)
submit_at Step.email env m s =
    let email = env.trim_space m.input in
    (
      next_step (if is_empty email then Step.password else Step.email_confirm)
          (record m { email = email }),
      s,
    )
submit_at Step.email_confirm env m s =
    if same (env.trim_space m.input) m.email then (next_step Step.password m, s) else (
      fail (codes "Email addresses do not match. Please re-enter.") Step.email
          (record m { email = [] }),
      s,
    )
submit_at Step.invite_code env m s =
    let code = env.trim_space m.input in
    if is_empty code
    then (record m { err_msg = codes "Please enter your invite code." }, s)
    else (submit_invite code m (validate_invite env.now code s.db), s)
submit_at Step.password env m s = (submit_password m (validate_password m.input), s)
submit_at Step.confirm env m s =
    if same m.input m.password
    then finalise env m s
    else (fail (codes "Passwords do not match. Please try again.") Step.password m, s)
submit_at Step.done env m s = (record m { done = true }, s)

-- submit
unfoldable pub submit : Env → Model → System → Model × System
unfolding submit_at
submit env m s = submit_at m.step env m s

-- Whether a step takes blanks as they are typed.
abbrev pub takes_spaces : Step → Bool
takes_spaces Step.password = true
takes_spaces Step.confirm = true
takes_spaces Step.email = true
takes_spaces Step.email_confirm = true
takes_spaces step = false

-- strings.Map with the blanks taken out.
unfoldable pub without_spaces : Env → List ℕ → List ℕ
without_spaces env [] = []
without_spaces env (c ∷ cs) =
    let rest = without_spaces env cs in if env.is_space c then rest else c ∷ rest

-- Update
unfoldable pub update : Env → Key → Model → System → Model × System
unfolding submit without_spaces
update env Key.interrupt m s = (record m { done = true }, s)
update env Key.enter m s = submit env m s
update env Key.backspace m s =
    (if is_empty m.input then m else record m { input = drop_last m.input; err_msg = [] }, s)
update env (Key.runes rs) m s = (
  record m {
    input = m.input ++ utf8 (if takes_spaces m.step then rs else without_spaces env rs);
    err_msg = [];
  },
  s,
)
update env Key.other m s = (m, s)
