-- ===== src/Registration/Names.antt =====
-- internal/registration/app.go: which rows a registration may add to the accounts.
use retro_vax_bbs.Prelude.{
  ℕ, ◌≡◌, refl, sym, subst, Text, Bool, true, false, none, some, List, [], ◌∷◌, ◌++◌, All,
  Bool-cases, inl, inr, ◌⊎◌, if◌then◌else◌,
}
use mathlib.Core.List.{Mem, mem-cons_self, mem-cons_of_mem}
use retro_vax_bbs.Registry.State.{is_empty}
use retro_vax_bbs.Phone.Calls.State.{same}
use retro_vax_bbs.Store.Schema.{User, Store, user, active}
use retro_vax_bbs.Store.Accounts.{Result, create_pending_account, free_username, new_row}
use retro_vax_bbs.Store.Invites.{usable, find_invite, use_invite}
use retro_vax_bbs.Store.Redemption.{grant, refuse}
use retro_vax_bbs.Registration.Model.{
  Step, Model, Hashed, hashed, hash_failed, Env, System, is_invite_only, validate_username,
  validate_password,
}
use retro_vax_bbs.Registration.Submit.{
  Key, redeemed, submitted, created, finalise_with, finalise, submit_at, submit, update,
}
use retro_vax_bbs.Registration.Pending.{
  All-snoc, free_username-Kept, reject_pending_account-Kept, Created,
  create_pending_account-Created, activate_account-last, pending_row,
}
use retro_vax_bbs.Registration.Checks.{Fits, at_time, Filled, at_step, later, Filled-Fits}

-- A plain user's row whose name and password passed the checks, with the hash of the password.
pub record Fresh (env : Env) (u : User) : Type 0 where
  pub name : validate_username env u.username ≡ none
  pub role : u.role ≡ user
  pub secret : Text
  pub digest : Text
  pub long_enough : validate_password secret ≡ none
  pub computed : env.hash secret ≡ hashed digest
  pub stored : u.password_hash ≡ some digest

abbrev pub Known : Env → List User → User → Type 0
Known env before u = Mem u before ⊎ Fresh env u

All-weaken {ℓ κ} :
    {A : Type 0} (P : A → Type ℓ) (Q : A → Type κ) (xs : List A)
    → ((x : A) → P x → Q x)
    → All P xs
    → All Q xs
All-weaken P Q [] f h = tt
All-weaken P Q (x ∷ xs) f h = (f x h.0, All-weaken P Q xs f h.1)

All-Mem : (us : List User) → All (λ u. Mem u us) us
All-Mem [] = tt
All-Mem (u ∷ us) = (
  mem-cons_self,
  All-weaken (λ x. Mem x us) (λ x. Mem x (u ∷ us)) us (λ x h. mem-cons_of_mem u h) (All-Mem us),
)

All-Known : (env : Env) (us : List User) → All (Known env us) us
All-Known env us = All-weaken (λ u. Mem u us) (Known env us) us (λ u h. inl h) (All-Mem us)

module _ (env : Env) (m : Model) (s : System) (h : Text)
    (name : validate_username env m.username ≡ none) (secret : validate_password m.password ≡ none)
    (computed : env.hash m.password ≡ hashed h) where
  row-Fresh : (now id : ℕ) → Fresh env (pending_row now id m.username m.email h)
  unfolding new_row
  row-Fresh now id = record {
    name = name;
    role = refl;
    secret = m.password;
    digest = h;
    long_enough = secret;
    computed = computed;
    stored = refl;
  }

  active-Fresh :
      (now id : ℕ)
      → Fresh env (record (pending_row now id m.username m.email h) { status = active })
  unfolding new_row
  active-Fresh now id = record {
    name = name;
    role = refl;
    secret = m.password;
    digest = h;
    long_enough = secret;
    computed = computed;
    stored = refl;
  }

  -- The rows that are left once the name is freed.
  left : ℕ → Store
  left now = free_username env.enforced now m.username m.pending_expiry s.db

  left-Known : (now : ℕ) → All (Known env s.db.users) (left now).users
  unfolding left
  left-Known now =
      (free_username-Kept (Known env s.db.users) env.enforced now m.username m.pending_expiry s.db
        (All-Known env s.db.users)).0

  created-Known :
      (r : Result)
      → Created env.enforced env.now m.username m.email h m.pending_expiry s.db r
      → All (Known env s.db.users) (created env m s.reg r).1.db.users
  unfolding created submitted redeemed left
  created-Known r (inl e) =
      subst (λ x. All (Known env s.db.users) (created env m s.reg x).1.db.users) (sym e)
        (left-Known env.now)
  created-Known r (inr (id, none_there, e)) =
      let t = left env.now in
      let row = pending_row env.now id m.username m.email h in
      let t' : Store = record t { users = t.users ++ row ∷ [] } in
      let kept =
        All-snoc (Known env s.db.users) t.users row (left-Known env.now)
          (inr (row-Fresh env.now id)) in
      subst (λ x. All (Known env s.db.users) (created env m s.reg x).1.db.users) (sym e)
        (elim (Bool-cases (is_invite_only m.mode)) [
          | inr f ↦ rw f kept
          | inl f ↦ elim (Bool-cases (usable env.now (find_invite m.invite t.invites))) [
            | inr g ↦
                rw (f, refuse m.invite env.now t' g)
                  (reject_pending_account-Kept (Known env s.db.users) env.enforced m.username t'
                    kept).0
            | inl g ↦
                let t2 : Store = record t { invites = use_invite m.invite t.invites } in
                let a = activate_account-last env.now id m.username m.email h t2 none_there in
                rw (f, grant m.invite env.now t' g, a.0)
                  (All-snoc (Known env s.db.users) t.users (record row { status = active })
                    (left-Known env.now) (inr (active-Fresh env.now id)))
          ]
        ])

finalise_with-Known :
    (env : Env) (m : Model) (s : System) (h : Hashed)
    → env.hash m.password ≡ h
    → (validate_username env m.username ≡ none) × (validate_password m.password ≡ none)
    → All (Known env s.db.users) (finalise_with env m s h).1.db.users
unfolding finalise_with
finalise_with-Known env m s (hash_failed x) e c = All-Known env s.db.users
finalise_with-Known env m s (hashed h) e c =
    created-Known env m s h c.0 c.1 e
      (create_pending_account env.enforced env.now m.username m.email h m.pending_expiry s.db)
      (create_pending_account-Created env.enforced env.now m.username m.email h m.pending_expiry
        s.db)

-- A test between two outcomes that both leave the store as it is.
untouched :
    (env : Env) (s : System) (b : Bool) (x y : Model)
    → All (Known env s.db.users) (if◌then◌else◌ {A = Model × System} b (x, s) (y, s)).1.db.users
untouched env s true x y = All-Known env s.db.users
untouched env s false x y = All-Known env s.db.users

submit_at-Known :
    (st : Step) (env : Env) (m : Model) (s : System)
    → m.step ≡ st
    → Fits env m
    → All (Known env s.db.users) (submit_at st env m s).1.db.users
unfolding submit_at finalise
submit_at-Known Step.username env m s e f = All-Known env s.db.users
submit_at-Known Step.email env m s e f = All-Known env s.db.users
submit_at-Known Step.email_confirm env m s e f =
    untouched env s (same (env.trim_space m.input) m.email) _ _
submit_at-Known Step.invite_code env m s e f =
    untouched env s (is_empty (env.trim_space m.input)) _ _
submit_at-Known Step.password env m s e f = All-Known env s.db.users
submit_at-Known Step.confirm env m s e f = elim (Bool-cases (same m.input m.password)) [
  | inl g ↦ rw g (finalise_with-Known env m s (env.hash m.password) refl (at_step env m e f))
  | inr g ↦ rw g (All-Known env s.db.users)
]
submit_at-Known Step.done env m s e f = All-Known env s.db.users

update-Known :
    (env : Env) (k : Key) (m : Model) (s : System)
    → Fits env m
    → All (Known env s.db.users) (update env k m s).1.db.users
unfolding update submit
update-Known env Key.interrupt m s f = All-Known env s.db.users
update-Known env Key.enter m s f = submit_at-Known m.step env m s refl f
update-Known env Key.backspace m s f = All-Known env s.db.users
update-Known env (Key.runes rs) m s f = All-Known env s.db.users
update-Known env Key.other m s f = All-Known env s.db.users

-- Whatever was typed before, whenever, and whatever the store has become in the meantime, the next key
-- leaves only accounts that were there and accounts of plain users whose name passes the checks of names
-- (so that it is not reserved) and whose stored hash is the hash of a password that passes those of
-- passwords.
pub Filled-Known :
    (env : Env) (mode : Text) (pending_expiry : ℕ) (m : Model) (now : ℕ) (k : Key) (s : System)
    → Filled env mode pending_expiry m
    → All (Known (at_time now env) s.db.users) (update (at_time now env) k m s).1.db.users
Filled-Known env mode pending_expiry m now k s h =
    update-Known (at_time now env) k m s
      (later m.step now env m.username m.password (Filled-Fits h))
