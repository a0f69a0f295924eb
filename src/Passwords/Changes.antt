-- ===== src/Passwords/Changes.antt =====
-- internal/setpassword/setpassword.go: the stored hashes, whatever is typed into the dialogue.
use retro_vax_bbs.Prelude.{
  ◌≡◌, refl, ap, Text, Bool, true, false, ◌||◌, Option, none, some, List, [], ◌∷◌, map,
  if◌then◌else◌, Bool-cases, inl, inr, ◌⊎◌,
}
use retro_vax_bbs.Phone.Calls.State.{same}
use retro_vax_bbs.Store.Schema.{User, Store, update_rows, has_id}
use retro_vax_bbs.Store.Accounts.{
  Result, get_user_by_username, record_failed_attempt, clear_failed_attempts, set_password,
  failed_once,
}
use retro_vax_bbs.Registration.Model.{Hashed, hashed, hash_failed, validate_password}
use retro_vax_bbs.Server.Login.{Verdict, locked}
use retro_vax_bbs.Passwords.Dialogue.{
  Step, Model, Env, Key, new_model, answered, check_hash, submit_current, stored, finalise_with,
  finalise, submit_at, press, update,
}
use retro_vax_bbs.Passwords.Proofs.{proves, Fits, Past, at_step, update-Fits}

abbrev pub hash_of : User → Text × Option Text
hash_of u = (u.username, u.password_hash)

abbrev pub hashes : Store → List (Text × Option Text)
hashes s = map hash_of s.users

hashes-update_rows :
    (p : User → Bool) (f : User → User) (us : List User)
    → ((u : User) → hash_of (f u) ≡ hash_of u)
    → map hash_of (update_rows p f us) ≡ map hash_of us
unfolding update_rows
hashes-update_rows p f [] h = refl
hashes-update_rows p f (u ∷ us) h = elim (Bool-cases (p u)) [
  | inl e ↦ rw (e, h u) (ap (λ ks. hash_of u ∷ ks) (hashes-update_rows p f us h))
  | inr e ↦ rw e (ap (λ ks. hash_of u ∷ ks) (hashes-update_rows p f us h))
]

-- A key changes no stored hash, or it stores the hash of the new password, which passes the check of
-- passwords, with the current password proven.
abbrev pub Changes : Env → Bool → Model → Store → Model × Store → Type 0
Changes env proven m s r =
    (hashes r.1 ≡ hashes s)
    ⊎ ((proven ≡ true)
        × (validate_password m.new_password ≡ none)
        × ((h : Text) × (env.hash m.new_password ≡ hashed h)
            × (r.1 ≡ (set_password m.target h s).0)))

answered-same :
    (env : Env) (u : User) (m : Model) (s : Store) (v : Verdict)
    → hashes (answered env u m s v).1 ≡ hashes s
unfolding answered record_failed_attempt clear_failed_attempts failed_once
answered-same env u m s Verdict.matches =
    hashes-update_rows (has_id u.id) (λ w. record w { failed_attempts = 0; locked_until = none })
      s.users (λ w. refl)
answered-same env u m s Verdict.mismatch =
    hashes-update_rows (has_id u.id) (failed_once env.now) s.users (λ w. refl)
answered-same env u m s Verdict.malformed =
    hashes-update_rows (has_id u.id) (failed_once env.now) s.users (λ w. refl)

check_hash-same :
    (env : Env) (u : User) (m : Model) (s : Store) (o : Option Text)
    → hashes (check_hash env u m s o).1 ≡ hashes s
unfolding check_hash
check_hash-same env u m s none = refl
check_hash-same env u m s (some hash) = elim (Bool-cases (locked env.now u.locked_until)) [
  | inl l ↦ rw l refl
  | inr l ↦ rw l (answered-same env u m s (env.verify m.input hash))
]

submit_current-same :
    (env : Env) (m : Model) (s : Store) (o : Option User)
    → hashes (submit_current env m s o).1 ≡ hashes s
unfolding submit_current
submit_current-same env m s none = refl
submit_current-same env m s (some u) = check_hash-same env u m s u.password_hash

stored_store : (env : Env) (m : Model) (r : Result) → (stored env m r).1 ≡ r.0
unfolding stored
stored_store env m (s, none) = refl
stored_store env m (s, some e) = refl

finalise_with-Changes :
    (env : Env) (p : Bool) (m : Model) (s : Store) (h : Hashed)
    → env.hash m.new_password ≡ h
    → Past p Step.confirm m.new_password
    → Changes env p m s (finalise_with env m s h)
unfolding finalise_with
finalise_with-Changes env p m s (hash_failed x) e f = inl refl
finalise_with-Changes env p m s (hashed h) e f =
    inr (f.0, f.1, (h, e, stored_store env m (set_password m.target h s)))

submit_at-Changes :
    (st : Step) (env : Env) (p : Bool) (m : Model) (s : Store)
    → m.step ≡ st
    → Fits p m
    → Changes env p m s (submit_at st env m s)
unfolding submit_at finalise
submit_at-Changes Step.current env p m s e f =
    inl (submit_current-same env m s (get_user_by_username m.target s))
submit_at-Changes Step.new env p m s e f = inl refl
submit_at-Changes Step.confirm env p m s e f = elim (Bool-cases (same m.input m.new_password)) [
  | inl k ↦ rw k (finalise_with-Changes env p m s (env.hash m.new_password) refl (at_step p m e f))
  | inr k ↦ rw k (inl refl)
]

press-Changes :
    (k : Key) (env : Env) (p : Bool) (m : Model) (s : Store)
    → Fits p m
    → Changes env p m s (press k env m s)
unfolding press
press-Changes Key.cancel env p m s f = inl refl
press-Changes Key.enter env p m s f = submit_at-Changes m.step env p m s refl f
press-Changes Key.backspace env p m s f = inl refl
press-Changes Key.space env p m s f = inl refl
press-Changes (Key.runes rs) env p m s f = inl refl
press-Changes Key.other env p m s f = inl refl

either-Changes :
    (env : Env) (p : Bool) (m : Model) (s : Store) (b : Bool) (x y : Model × Store)
    → Changes env p m s x
    → Changes env p m s y
    → Changes env p m s (if b then x else y)
either-Changes env p m s true x y h k = h
either-Changes env p m s false x y h k = k

-- The dialogues that ask for the current password, after any keys, each on whatever the store has become,
-- and whether the current password was typed rightly on the way.
pub data Reached (actor target : Text) (cancelable : Bool) : Model → Bool → Type 0 where
  opened : Reached actor target cancelable (new_model actor target true cancelable) false
  keyed :
      (env : Env) (k : Key) (s : Store) {m : Model} {p : Bool}
      → Reached actor target cancelable m p
      → Reached actor target cancelable (update env k m s).0 (p || proves env k m s)

Reached-Fits :
    {actor target : Text} {cancelable : Bool} {m : Model} {p : Bool}
    → Reached actor target cancelable m p
    → Fits p m
unfolding new_model
Reached-Fits opened = tt
Reached-Fits (keyed env k s {m} {p} r) = update-Fits env k m s p (Reached-Fits r)

-- Whatever was typed before into a dialogue that asks for the current password, and whatever the store
-- has become, the next key changes nobody's stored hash, unless the current password was typed rightly
-- before; then it may store the hash of a new password that passes the check of passwords, for the target
-- alone.
pub Reached-Changes :
    (actor target : Text) (cancelable : Bool) (m : Model) (p : Bool) (env : Env) (k : Key)
    (s : Store)
    → Reached actor target cancelable m p
    → Changes env p m s (update env k m s)
unfolding update
Reached-Changes actor target cancelable m p env k s r =
    either-Changes env p m s m.is_done (m, s) (press k env m s) (inl refl)
      (press-Changes k env p m s (Reached-Fits r))
