-- ===== src/Passwords/Dialogue.antt =====
-- internal/setpassword/setpassword.go: the model, Update, submit and finalise. The check of a password
-- against a stored hash and the hash function are parameters.
use retro_vax_bbs.Prelude.{
  ℕ, Text, codes, Bool, true, false, not, Option, none, some, List, [], ◌∷◌, ◌++◌, if◌then◌else◌,
}
use retro_vax_bbs.Registry.State.{is_empty}
use retro_vax_bbs.Phone.Viewport.{drop_last}
use retro_vax_bbs.Phone.Calls.State.{same}
use retro_vax_bbs.Phone.Screen.Model.{utf8}
use retro_vax_bbs.Store.Schema.{User, Store, Error}
use retro_vax_bbs.Store.Accounts.{
  Result, get_user_by_username, record_failed_attempt, clear_failed_attempts, set_password,
}
use retro_vax_bbs.Registration.Model.{Hashed, hashed, hash_failed, validate_password}
use retro_vax_bbs.Server.Login.{Verdict, locked}

pub data Step : Type 0 where
  current new confirm : Step

pub record Model : Type 0 where
  pub actor : Text
  pub target : Text
  pub require_current : Bool
  pub cancelable : Bool
  pub step : Step
  pub input : Text
  pub new_password : Text
  pub validation_err : Text
  pub status_msg : Text
  pub is_done : Bool

pub record Env : Type 0 where
  pub verify : Text → Text → Verdict
  pub hash : Text → Hashed
  pub describe : Error → Text
  pub now : ℕ

-- tea.KeyMsg; `cancel` stands for Ctrl-C and Esc.
pub data Key : Type 0 where
  cancel enter backspace space : Key
  runes : List ℕ → Key
  other : Key

-- New
unfoldable pub new_model : Text → Text → Bool → Bool → Model
new_model actor target require_current cancelable = record {
  actor = actor;
  target = target;
  require_current = require_current;
  cancelable = cancelable;
  step = if require_current then Step.current else Step.new;
  input = [];
  new_password = [];
  validation_err = [];
  status_msg = [];
  is_done = false;
}

unfoldable pub finish : Text → Model → Model
finish text m = record m { status_msg = text; is_done = true }

unfoldable pub retry : Text → Model → Model
retry text m = record m { validation_err = text; input = [] }

-- The answer to the current password.
unfoldable pub answered : Env → User → Model → Store → Verdict → Model × Store
unfolding retry
answered env u m s Verdict.matches =
    (record m { input = []; step = Step.new }, clear_failed_attempts u.id s)
answered env u m s Verdict.mismatch =
    (retry (codes "Current password incorrect.") m, record_failed_attempt env.now u.id s)
answered env u m s Verdict.malformed =
    (retry (codes "Current password incorrect.") m, record_failed_attempt env.now u.id s)

abbrev pub unverified : Text
unverified = codes "Could not verify current password. Please try again."

abbrev pub locked_text : Text
locked_text =
    codes
      "%VAX-BBS-E-LOCKED, Account is locked from too many failed attempts. Try again later or contact an admin."

unfoldable pub check_hash : Env → User → Model → Store → Option Text → Model × Store
unfolding answered retry finish
check_hash env u m s none = (retry unverified m, s)
check_hash env u m s (some hash) =
    if locked env.now u.locked_until
    then (finish locked_text m, s)
    else answered env u m s (env.verify m.input hash)

-- The case of stateCurrent.
unfoldable pub submit_current : Env → Model → Store → Option User → Model × Store
unfolding check_hash retry
submit_current env m s none = (retry unverified m, s)
submit_current env m s (some u) = check_hash env u m s u.password_hash

abbrev pub changed_text : Model → Text
changed_text m =
    if same m.actor m.target
    then codes "%VAX-BBS-S-PASSWD, Your password has been updated."
    else codes "%VAX-BBS-S-PASSWD, Password for '" ++ (m.target ++ codes "' has been updated.")

unfoldable pub stored : Env → Model → Result → Model × Store
unfolding finish
stored env m (s, none) = (finish (changed_text m) m, s)
stored env m (s, some e) = (finish (codes "%VAX-BBS-E-PASSWD, " ++ env.describe e) m, s)

unfoldable pub finalise_with : Env → Model → Store → Hashed → Model × Store
unfolding stored finish
finalise_with env m s (hash_failed e) =
    (finish (codes "%VAX-BBS-E-PASSWD, could not hash password: " ++ e) m, s)
finalise_with env m s (hashed h) = stored env m (set_password m.target h s)

-- finalise
unfoldable pub finalise : Env → Model → Store → Model × Store
unfolding finalise_with
finalise env m s = finalise_with env m s (env.hash m.new_password)

-- The case of stateNew.
unfoldable pub submit_new : Model → Option Text → Model
unfolding retry
submit_new m none = record m { new_password = m.input; input = []; step = Step.confirm }
submit_new m (some e) = retry e m

-- submit, by the step.
unfoldable pub submit_at : Step → Env → Model → Store → Model × Store
unfolding submit_current submit_new finalise
submit_at Step.current env m s = submit_current env m s (get_user_by_username m.target s)
submit_at Step.new env m s = (submit_new m (validate_password m.input), s)
submit_at Step.confirm env m s = if same m.input m.new_password then finalise env m s else (
  record m {
    validation_err = codes "Passwords do not match. Please try again.";
    input = [];
    new_password = [];
    step = Step.new;
  },
  s,
)

abbrev pub cancelled_text : Model → Text
cancelled_text m =
    if same m.actor m.target
    then codes "%VAX-BBS-I-PASSWD, SET PASSWORD cancelled. Your password was not changed."
    else codes "%VAX-BBS-I-PASSWD, RESET PASSWORD "
      ++ (m.target ++ codes " cancelled. Password was not changed.")

-- The key cases of Update.
unfoldable pub press : Key → Env → Model → Store → Model × Store
unfolding submit_at finish
press Key.cancel env m s = (if not m.cancelable then m else finish (cancelled_text m) m, s)
press Key.enter env m s = submit_at m.step env m s
press Key.backspace env m s =
    (if is_empty m.input then m else record m { input = drop_last m.input; validation_err = [] }, s)
press Key.space env m s = (record m { input = m.input ++ 32 ∷ []; validation_err = [] }, s)
press (Key.runes rs) env m s = (record m { input = m.input ++ utf8 rs; validation_err = [] }, s)
press Key.other env m s = (m, s)

-- Update, on a key.
unfoldable pub update : Env → Key → Model → Store → Model × Store
unfolding press
update env k m s = if m.is_done then (m, s) else press k env m s
