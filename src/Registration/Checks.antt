-- ===== src/Registration/Checks.antt =====
-- internal/registration/app.go: what has been checked of a name and a password at each step.
use retro_vax_bbs.Prelude.{
  ℕ, ◌≡◌, refl, subst, Text, Bool, true, false, Option, none, some, Bool-cases, inl, inr,
  if◌then◌else◌,
}
use retro_vax_bbs.Registry.State.{Registry, is_empty}
use retro_vax_bbs.Phone.Calls.State.{same}
use retro_vax_bbs.Store.Schema.{Error}
use retro_vax_bbs.Store.Accounts.{Result, create_pending_account, get_user_by_username}
use retro_vax_bbs.Store.Invites.{validate_invite, validate_and_consume_invite}
use retro_vax_bbs.Registration.Model.{
  Step, Model, Hashed, hashed, hash_failed, Env, System, new_model, is_invite_only,
  validate_username, validate_password, allowed,
}
use retro_vax_bbs.Registration.Submit.{
  Key, fail, finish, next_step, is_some, submit_username, submit_invite, submit_password, redeemed,
  submitted, created, finalise_with, finalise, submit_at, submit, update,
}

-- What has been checked of the entered name and password at a step.
abbrev pub Checked : Env → Step → Text → Text → Type 0
Checked env Step.username name password = Unit
Checked env Step.done name password = Unit
Checked env Step.confirm name password =
    (validate_username env name ≡ none) × (validate_password password ≡ none)
Checked env Step.email name password = validate_username env name ≡ none
Checked env Step.email_confirm name password = validate_username env name ≡ none
Checked env Step.invite_code name password = validate_username env name ≡ none
Checked env Step.password name password = validate_username env name ≡ none

abbrev pub Fits : Env → Model → Type 0
Fits env m = Checked env m.step m.username m.password

redeemed-Fits :
    (env : Env) (m : Model) (reg : Registry) (r : Result) → Fits env (redeemed env m reg r).0
unfolding redeemed fail finish
redeemed-Fits env m reg (db, none) = tt
redeemed-Fits env m reg (db, some e) = tt

created-Fits :
    (env : Env) (m : Model) (reg : Registry) (r : Result) → Fits env (created env m reg r).0
unfolding created submitted finish fail
created-Fits env m reg (db, some e) = tt
created-Fits env m reg (db, none) = elim (Bool-cases (is_invite_only m.mode)) [
  | inl e ↦ rw e (redeemed-Fits env m reg (validate_and_consume_invite env.now m.invite db))
  | inr e ↦ rw e tt
]

finalise_with-Fits :
    (env : Env) (m : Model) (s : System) (h : Hashed) → Fits env (finalise_with env m s h).0
unfolding finalise_with finish
finalise_with-Fits env m s (hash_failed e) = tt
finalise_with-Fits env m s (hashed h) =
    created-Fits env m s.reg
      (create_pending_account env.enforced env.now m.username m.email h m.pending_expiry s.db)

either-Fits :
    (env : Env) (b : Bool) (x y : Model × System)
    → Fits env x.0
    → Fits env y.0
    → Fits env (if b then x else y).0
either-Fits env true x y h k = h
either-Fits env false x y h k = k

-- The modes differ in the step after the name, and both steps ask for the same.
after_name :
    (env : Env) (b : Bool) (name password : Text)
    → validate_username env name ≡ none
    → Checked env (if b then Step.invite_code else Step.email) name password
after_name env true name password h = h
after_name env false name password h = h

after_email :
    (env : Env) (b : Bool) (name password : Text)
    → validate_username env name ≡ none
    → Checked env (if b then Step.password else Step.email_confirm) name password
after_email env true name password h = h
after_email env false name password h = h

submit_username-Fits :
    (env : Env) (m : Model) (s : System) (o : Option Text)
    → validate_username env m.input ≡ o
    → Fits env m
    → Fits env (submit_username m s o)
unfolding submit_username next_step
submit_username-Fits env m s (some e) v f = f
submit_username-Fits env m s none v f =
    elim (Bool-cases (is_some (get_user_by_username m.input s.db))) [
      | inl g ↦ rw g f
      | inr g ↦ rw g (after_name env (is_invite_only m.mode) m.input m.password v)
    ]

submit_invite-Fits :
    (env : Env) (code : Text) (m : Model) (o : Option Error)
    → validate_username env m.username ≡ none
    → Fits env m
    → Fits env (submit_invite code m o)
unfolding submit_invite next_step
submit_invite-Fits env code m none v f = v
submit_invite-Fits env code m (some e) v f = f

submit_password-Fits :
    (env : Env) (m : Model) (o : Option Text)
    → validate_password m.input ≡ o
    → validate_username env m.username ≡ none
    → Fits env m
    → Fits env (submit_password m o)
unfolding submit_password next_step
submit_password-Fits env m none w v f = (v, w)
submit_password-Fits env m (some e) w v f = f

-- The checks of a step, once it is known.
pub at_step :
    {st : Step} (env : Env) (m : Model)
    → m.step ≡ st
    → Fits env m
    → Checked env st m.username m.password
at_step env m e f = subst (λ x. Checked env x m.username m.password) e f

submit_at-Fits :
    (st : Step) (env : Env) (m : Model) (s : System)
    → m.step ≡ st
    → Fits env m
    → Fits env (submit_at st env m s).0
unfolding submit_at fail next_step finalise
submit_at-Fits Step.username env m s e f =
    submit_username-Fits env m s (validate_username env m.input) refl f
submit_at-Fits Step.email env m s e f =
    after_email env (is_empty (env.trim_space m.input)) m.username m.password (at_step env m e f)
submit_at-Fits Step.email_confirm env m s e f =
    either-Fits env (same (env.trim_space m.input) m.email) _ _ (at_step env m e f)
      (at_step env m e f)
submit_at-Fits Step.invite_code env m s e f =
    either-Fits env (is_empty (env.trim_space m.input)) _ _ f (
      submit_invite-Fits env (env.trim_space m.input) m
        (validate_invite env.now (env.trim_space m.input) s.db) (at_step env m e f) f)
submit_at-Fits Step.password env m s e f =
    submit_password-Fits env m (validate_password m.input) refl (at_step env m e f) f
submit_at-Fits Step.confirm env m s e f =
    either-Fits env (same m.input m.password) _ _ (finalise_with-Fits env m s (env.hash m.password))
      (at_step env m e f).0
submit_at-Fits Step.done env m s e f = f

pub update-Fits :
    (env : Env) (k : Key) (m : Model) (s : System) → Fits env m → Fits env (update env k m s).0
unfolding update submit
update-Fits env Key.interrupt m s f = f
update-Fits env Key.enter m s f = submit_at-Fits m.step env m s refl f
update-Fits env Key.backspace m s f = elim (Bool-cases (is_empty m.input)) [
  | inl e ↦ rw e f
  | inr e ↦ rw e f
]
update-Fits env (Key.runes rs) m s f = f
update-Fits env Key.other m s f = f

-- The same functions at another time.
abbrev pub at_time : ℕ → Env → Env
at_time now env = record env { now = now }

-- The models that a registration goes through: any keys at any times, on whatever the system has become
-- in the meantime.
pub data Filled (env : Env) (mode : Text) (pending_expiry : ℕ) : Model → Type 0 where
  opened : Filled env mode pending_expiry (new_model mode pending_expiry)
  keyed :
      (now : ℕ) (k : Key) (s : System) {m : Model}
      → Filled env mode pending_expiry m
      → Filled env mode pending_expiry (update (at_time now env) k m s).0

-- The checks do not ask for the time.
earlier :
    (st : Step) (now : ℕ) (env : Env) (name password : Text)
    → Checked (at_time now env) st name password
    → Checked env st name password
unfolding validate_username allowed
earlier Step.username now env name password h = h
earlier Step.email now env name password h = h
earlier Step.email_confirm now env name password h = h
earlier Step.invite_code now env name password h = h
earlier Step.password now env name password h = h
earlier Step.confirm now env name password h = h
earlier Step.done now env name password h = h

pub later :
    (st : Step) (now : ℕ) (env : Env) (name password : Text)
    → Checked env st name password
    → Checked (at_time now env) st name password
unfolding validate_username allowed
later Step.username now env name password h = h
later Step.email now env name password h = h
later Step.email_confirm now env name password h = h
later Step.invite_code now env name password h = h
later Step.password now env name password h = h
later Step.confirm now env name password h = h
later Step.done now env name password h = h

pub Filled-Fits :
    {env : Env} {mode : Text} {pending_expiry : ℕ} {m : Model}
    → Filled env mode pending_expiry m
    → Fits env m
unfolding new_model
Filled-Fits opened = tt
Filled-Fits {env} (keyed now k s {m} h) =
    let r = update (at_time now env) k m s in
    earlier r.0.step now env r.0.username r.0.password (
      update-Fits (at_time now env) k m s
        (later m.step now env m.username m.password (Filled-Fits h)))
