-- ===== src/Passwords/Proofs.antt =====
-- internal/setpassword/setpassword.go: when the dialogue changes the hash of a password.
use retro_vax_bbs.Prelude.{
  ◌≡◌, refl, ◌∙◌, subst, Text, Bool, true, false, ◌&&◌, ◌||◌, Option, none, some, if◌then◌else◌,
  Bool-cases, inl, inr,
}
use retro_vax_bbs.Registry.State.{is_empty}
use retro_vax_bbs.Phone.Calls.State.{same}
use retro_vax_bbs.Store.Schema.{User, Store}
use retro_vax_bbs.Store.Accounts.{Result, get_user_by_username, set_password}
use retro_vax_bbs.Registration.Model.{Hashed, hashed, hash_failed, validate_password}
use retro_vax_bbs.Server.Login.{Verdict, locked}
use retro_vax_bbs.Server.Entry.{is_match}
use retro_vax_bbs.Passwords.Dialogue.{
  Step, Model, Env, Key, finish, retry, answered, check_hash, submit_current, stored, finalise_with,
  finalise, submit_new, submit_at, press, update,
}

-- The input is the current password of the account.
unfoldable pub knows : Env → Model → Option User → Bool
knows env m none = false
knows env m (some u) = is_match env.verify m.input u.password_hash

abbrev pub asks_current : Step → Bool
asks_current Step.current = true
asks_current Step.new = false
asks_current Step.confirm = false

-- The key is the Enter that ends the current password, typed rightly.
unfoldable pub proves : Env → Key → Model → Store → Bool
unfolding knows
proves env Key.enter m s = asks_current m.step && knows env m (get_user_by_username m.target s)
proves env k m s = false

-- What is known after the step of the current password, `proven` telling whether it was typed rightly.
abbrev pub Past : Bool → Step → Text → Type 0
Past proven Step.current password = Unit
Past proven Step.new password = proven ≡ true
Past proven Step.confirm password = (proven ≡ true) × (validate_password password ≡ none)

either_true : (a b : Bool) → a ≡ true → (a || b) ≡ true
either_true true b e = refl
either_true false b e = absurd cc

or_true : (a b : Bool) → b ≡ true → (a || b) ≡ true
or_true true b e = refl
or_true false b e = e

Past-later :
    (a b : Bool) (st : Step) (password : Text) → Past a st password → Past (a || b) st password
Past-later a b Step.current password h = h
Past-later a b Step.new password h = either_true a b h
Past-later a b Step.confirm password h = (either_true a b h.0, h.1)

abbrev pub Fits : Bool → Model → Type 0
Fits proven m = Past proven m.step m.new_password

answered-Fits :
    (env : Env) (u : User) (m : Model) (s : Store) (v : Verdict) (q : Bool)
    → (v ≡ Verdict.matches → q ≡ true)
    → Fits q m
    → Fits q (answered env u m s v).0
unfolding answered retry
answered-Fits env u m s Verdict.matches q h f = h refl
answered-Fits env u m s Verdict.mismatch q h f = f
answered-Fits env u m s Verdict.malformed q h f = f

matching_lem :
    (env : Env) (m : Model) (hash : Text) (v : Verdict)
    → env.verify m.input hash ≡ v
    → v ≡ Verdict.matches
    → is_match env.verify m.input (some hash) ≡ true
unfolding is_match
matching_lem env m hash v e f = rw (e ∙ f, is_match) refl

check_hash-Fits :
    (env : Env) (u : User) (m : Model) (s : Store) (o : Option Text) (q : Bool)
    → (is_match env.verify m.input o ≡ true → q ≡ true)
    → Fits q m
    → Fits q (check_hash env u m s o).0
unfolding check_hash retry finish
check_hash-Fits env u m s none q h f = f
check_hash-Fits env u m s (some hash) q h f = elim (Bool-cases (locked env.now u.locked_until)) [
  | inl l ↦ rw l f
  | inr l ↦ rw l (
      answered-Fits env u m s (env.verify m.input hash) q
        (λ e. h (matching_lem env m hash (env.verify m.input hash) refl e)) f)
]

submit_current-Fits :
    (env : Env) (m : Model) (s : Store) (o : Option User) (q : Bool)
    → (knows env m o ≡ true → q ≡ true)
    → Fits q m
    → Fits q (submit_current env m s o).0
unfolding submit_current retry knows
submit_current-Fits env m s none q h f = f
submit_current-Fits env m s (some u) q h f = check_hash-Fits env u m s u.password_hash q h f

stored-Fits : (env : Env) (m : Model) (r : Result) (q : Bool) → Fits q m → Fits q (stored env m r).0
unfolding stored finish
stored-Fits env m (s, none) q f = f
stored-Fits env m (s, some e) q f = f

finalise_with-Fits :
    (env : Env) (m : Model) (s : Store) (h : Hashed) (q : Bool)
    → Fits q m
    → Fits q (finalise_with env m s h).0
unfolding finalise_with finish
finalise_with-Fits env m s (hash_failed e) q f = f
finalise_with-Fits env m s (hashed h) q f = stored-Fits env m (set_password m.target h s) q f

submit_new-Fits :
    (m : Model) (o : Option Text) (q : Bool)
    → validate_password m.input ≡ o
    → q ≡ true
    → Fits q m
    → Fits q (submit_new m o)
unfolding submit_new retry
submit_new-Fits m none q e h f = (h, e)
submit_new-Fits m (some x) q e h f = f

pub at_step : {st : Step} (q : Bool) (m : Model) → m.step ≡ st → Fits q m → Past q st m.new_password
at_step q m e f = subst (λ x. Past q x m.new_password) e f

submit_at-Fits :
    (st : Step) (env : Env) (m : Model) (s : Store) (q : Bool)
    → m.step ≡ st
    → ((asks_current st && knows env m (get_user_by_username m.target s)) ≡ true → q ≡ true)
    → Fits q m
    → Fits q (submit_at st env m s).0
unfolding submit_at finalise
submit_at-Fits Step.current env m s q e h f =
    submit_current-Fits env m s (get_user_by_username m.target s) q h f
submit_at-Fits Step.new env m s q e h f =
    submit_new-Fits m (validate_password m.input) q refl (at_step q m e f) f
submit_at-Fits Step.confirm env m s q e h f = elim (Bool-cases (same m.input m.new_password)) [
  | inl k ↦ rw k (finalise_with-Fits env m s (env.hash m.new_password) q f)
  | inr k ↦ rw k (at_step q m e f).0
]

press-Fits :
    (k : Key) (env : Env) (m : Model) (s : Store) (p : Bool)
    → Fits p m
    → Fits (p || proves env k m s) (press k env m s).0
unfolding press proves finish
press-Fits Key.cancel env m s p f = elim (Bool-cases m.cancelable) [
  | inl e ↦ rw e (Past-later p false m.step m.new_password f)
  | inr e ↦ rw e (Past-later p false m.step m.new_password f)
]
press-Fits Key.enter env m s p f =
    let q = asks_current m.step && knows env m (get_user_by_username m.target s) in
    submit_at-Fits m.step env m s (p || q) refl (λ h. or_true p q h)
      (Past-later p q m.step m.new_password f)
press-Fits Key.backspace env m s p f = elim (Bool-cases (is_empty m.input)) [
  | inl e ↦ rw e (Past-later p false m.step m.new_password f)
  | inr e ↦ rw e (Past-later p false m.step m.new_password f)
]
press-Fits Key.space env m s p f = Past-later p false m.step m.new_password f
press-Fits (Key.runes rs) env m s p f = Past-later p false m.step m.new_password f
press-Fits Key.other env m s p f = Past-later p false m.step m.new_password f

either-Fits :
    (b : Bool) (x y : Model × Store) (q : Bool)
    → Fits q x.0
    → Fits q y.0
    → Fits q (if◌then◌else◌ {A = Model × Store} b x y).0
either-Fits true x y q f g = f
either-Fits false x y q f g = g

pub update-Fits :
    (env : Env) (k : Key) (m : Model) (s : Store) (p : Bool)
    → Fits p m
    → Fits (p || proves env k m s) (update env k m s).0
unfolding update
update-Fits env k m s p f =
    either-Fits m.is_done (m, s) (press k env m s) (p || proves env k m s)
      (Past-later p (proves env k m s) m.step m.new_password f) (press-Fits k env m s p f)
