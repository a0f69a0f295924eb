-- ===== src/Server/Entry.antt =====
-- cmd/server/main.go: who may log in.
use retro_vax_bbs.Prelude.{
  ℕ, ◌+◌, ◌≡◌, refl, sym, ap, ◌∙◌, subst, Text, codes, Bool, true, false, not, ◌&&◌, ◌||◌, Option,
  none, some, List, [], ◌∷◌, ltb, if◌then◌else◌, arith, Bool-cases, inl, inr,
}
use mathlib.Core.Option.{some-injective}
use retro_vax_bbs.Phone.Calls.Admission.{equal_fold}
use retro_vax_bbs.Store.Schema.{
  User, Store, Status, pending, active, suspended, is_active, is_suspended, is_admin, ban_lapsed,
  has_id, named, count_rows, find_row,
}
use retro_vax_bbs.Store.Accounts.{get_user_by_username, check_and_lift_expired_ban}
use retro_vax_bbs.Store.Rows.{
  count_rows-monotone, find_row-hit, find_row-skip, count_rows-hit, count_rows-skip,
  count_rows-found,
}
use retro_vax_bbs.Store.Standing.{and_left}
use retro_vax_bbs.Server.Login.{
  Verdict, Outcome, locked, verified, checked, complete_auth, lifted, lift_and_complete,
  admit_account, public_password_handler, admin_password_handler,
}

-- The password of an account matches its stored hash.
unfoldable pub is_match : (Text → Text → Verdict) → Text → Option Text → Bool
is_match verify password none = false
is_match verify password (some hash) = elim (verify password hash) [
  | Verdict.matches ↦ true
  | Verdict.mismatch ↦ false
  | Verdict.malformed ↦ false
]

-- An account that is active, or whose timed ban is over; that is not locked; and whose password is given.
unfoldable pub may_enter : (Text → Text → Verdict) → ℕ → Text → User → Bool
may_enter verify now password u =
    (is_active u.status || (is_suspended u.status && ban_lapsed now u.banned_until))
    && (not (locked now u.locked_until) && is_match verify password u.password_hash)

abbrev pub entered_if : Bool → Outcome
entered_if true = Outcome.entered
entered_if false = Outcome.refused

-- The accounts that a listener takes: those of its role.
unfoldable pub decides : Bool → (Text → Text → Verdict) → ℕ → Text → Option User → Outcome
unfolding may_enter
decides wants_admin verify now password none = Outcome.refused
decides true verify now password (some u) =
    entered_if (is_admin u.role && may_enter verify now password u)
decides false verify now password (some u) =
    entered_if (not (is_admin u.role) && may_enter verify now password u)

-- No two rows of the table have the id of the account of that name.
unfoldable pub Single : Option User → List User → Type 0
Single none us = Unit
Single (some u) us = count_rows (has_id u.id) us ≡ 1

count_rows-own :
    (q : User → Bool) (w : User) (us : List User)
    → count_rows (has_id w.id) (w ∷ us) ≡ 1
    → count_rows (λ x. has_id w.id x && q x) (w ∷ us) ≡ (if q w then 1 else 0)
count_rows-own q w us single =
    let mine : has_id w.id w ≡ true = ground arith in
    let others =
      count_rows-monotone (λ x. has_id w.id x && q x) (has_id w.id)
        (λ x h. and_left (has_id w.id x) (q x) h) us in
    let none_there : count_rows (λ x. has_id w.id x && q x) us ≡ 0 =
      omega (arith, single, count_rows-hit (has_id w.id) w us mine, others) in
    elim (Bool-cases (q w)) [
      | inl e ↦ rw e (
          count_rows-hit (λ x. has_id w.id x && q x) w us (rw (mine, e) refl)
          ∙ ap (λ k. k + 1) none_there)
      | inr e ↦
          rw e (count_rows-skip (λ x. has_id w.id x && q x) w us (rw (mine, e) refl) ∙ none_there)
    ]

-- How many rows of the account's id satisfy a test, if there is one row of that id.
count_rows-single :
    (p q : User → Bool) (us : List User) (u : User)
    → find_row p us ≡ some u
    → count_rows (has_id u.id) us ≡ 1
    → count_rows (λ w. has_id u.id w && q w) us ≡ (if q u then 1 else 0)
unfolding find_row
count_rows-single p q [] u e single = absurd cc
count_rows-single p q (w ∷ us) u e single = elim (Bool-cases (p w)) [
  | inl g ↦
      let same_row : w ≡ u = some-injective w u (sym (find_row-hit p w us g) ∙ e) in
      subst
        (λ x.
          count_rows (has_id x.id) (w ∷ us) ≡ 1
          → count_rows (λ y. has_id x.id y && q y) (w ∷ us) ≡ (if q x then 1 else 0))
        same_row (count_rows-own q w us) single
  | inr g ↦
      let e' = sym (find_row-skip p w us g) ∙ e in
      let there = count_rows-found p (has_id u.id) us u e' (ground arith) in
      elim (Bool-cases (has_id u.id w)) [
        | inl k ↦ absurd (omega (arith, single, count_rows-hit (has_id u.id) w us k, there))
        | inr k ↦
            count_rows-skip (λ y. has_id u.id y && q y) w us (rw k refl)
            ∙ count_rows-single p q us u e' (sym (count_rows-skip (has_id u.id) w us k) ∙ single)
      ]
]

verified_lem :
    (now : ℕ) (u : User) (s : Store) (v : Verdict)
    → (verified now u s v).1
      ≡ entered_if
          (elim v [ Verdict.matches ↦ true | Verdict.mismatch ↦ false | Verdict.malformed ↦ false ])
unfolding verified
verified_lem now u s Verdict.matches = refl
verified_lem now u s Verdict.mismatch = refl
verified_lem now u s Verdict.malformed = refl

checked_lem :
    (verify : Text → Text → Verdict) (now : ℕ) (u : User) (password : Text) (s : Store)
    (o : Option Text)
    → (checked verify now u password s o).1 ≡ entered_if (is_match verify password o)
unfolding checked is_match
checked_lem verify now u password s none = refl
checked_lem verify now u password s (some hash) = verified_lem now u s (verify password hash)

above : (a b : Bool) → a ≡ true → ltb 0 (if a && b then 1 else 0) ≡ b
above true true e = refl
above true false e = refl
above false b e = absurd cc

module _ (verify : Text → Text → Verdict) (now : ℕ) (password : Text) where
  complete_auth-active :
      (u : User) (s : Store)
      → is_active u.status ≡ true
      → (complete_auth verify now u password s).1
        ≡ entered_if (not (locked now u.locked_until) && is_match verify password u.password_hash)
  unfolding complete_auth
  complete_auth-active u s e = elim (Bool-cases (locked now u.locked_until)) [
    | inl l ↦ rw (e, l) refl
    | inr l ↦ rw (e, l) (checked_lem verify now u password s u.password_hash)
  ]

  complete_auth-inactive :
      (u : User) (s : Store)
      → is_active u.status ≡ false
      → (complete_auth verify now u password s).1 ≡ Outcome.refused
  unfolding complete_auth
  complete_auth-inactive u s e = rw e refl

  lifted-same : (u : User) (s : Store) → is_suspended u.status ≡ false → lifted now u s ≡ (u, s)
  unfolding lifted
  lifted-same u s e = rw e refl

  lifted-suspended :
      (u : User) (s : Store) (b : Bool)
      → is_suspended u.status ≡ true
      → (check_and_lift_expired_ban now u.id s).1 ≡ b
      → lifted now u s
        ≡ (if b then record u { status = active } else u, (check_and_lift_expired_ban now u.id s).0)
  unfolding lifted
  lifted-suspended u s b e f = rw (e, f) refl

  -- The answer of CheckAndLiftExpiredBan, for an account with an id of its own.
  lift_answer :
      (name : Text) (u : User) (s : Store)
      → get_user_by_username name s ≡ some u
      → count_rows (has_id u.id) s.users ≡ 1
      → is_suspended u.status ≡ true
      → (check_and_lift_expired_ban now u.id s).1 ≡ ban_lapsed now u.banned_until
  unfolding check_and_lift_expired_ban get_user_by_username
  lift_answer name u s f single e =
      ap (λ k. ltb 0 k)
        (count_rows-single (named name)
          (λ w. is_suspended w.status && ban_lapsed now w.banned_until) s.users u f single)
      ∙ above (is_suspended u.status) (ban_lapsed now u.banned_until) e

  may_enter-banned :
      (u : User) (b : Bool)
      → is_active u.status ≡ false
      → is_suspended u.status ≡ true
      → ban_lapsed now u.banned_until ≡ b
      → entered_if
          (b && (not (locked now u.locked_until) && is_match verify password u.password_hash))
        ≡ entered_if (may_enter verify now password u)
  unfolding may_enter
  may_enter-banned u b e f g = rw (e, f, g) refl

  banned_lem :
      (u : User) (t : Store) (b : Bool)
      → is_active u.status ≡ false
      → (complete_auth verify now (if b then record u { status = active } else u) password t).1
        ≡ entered_if
            (b && (not (locked now u.locked_until) && is_match verify password u.password_hash))
  banned_lem u t true e = complete_auth-active (record u { status = active }) t refl
  banned_lem u t false e = complete_auth-inactive u t e

  lifted-entered :
      (name : Text) (u : User) (s : Store) (st : Status)
      → u.status ≡ st
      → get_user_by_username name s ≡ some u
      → count_rows (has_id u.id) s.users ≡ 1
      → (lift_and_complete verify now password (lifted now u s)).1
        ≡ entered_if (may_enter verify now password u)
  unfolding may_enter
  lifted-entered name u s active e f single =
      let a : is_active u.status ≡ true = ap (λ x. is_active x) e in
      ap (λ r. (lift_and_complete verify now password r).1)
        (lifted-same u s (ap (λ x. is_suspended x) e))
      ∙ complete_auth-active u s a
      ∙ rw a refl
  lifted-entered name u s pending e f single =
      let a : is_active u.status ≡ false = ap (λ x. is_active x) e in
      let b : is_suspended u.status ≡ false = ap (λ x. is_suspended x) e in
      ap (λ r. (lift_and_complete verify now password r).1) (lifted-same u s b)
      ∙ complete_auth-inactive u s a
      ∙ rw (a, b) refl
  lifted-entered name u s suspended e f single =
      let a : is_active u.status ≡ false = ap (λ x. is_active x) e in
      let b : is_suspended u.status ≡ true = ap (λ x. is_suspended x) e in
      let lapsed = ban_lapsed now u.banned_until in
      ap (λ r. (lift_and_complete verify now password r).1)
        (lifted-suspended u s lapsed b (lift_answer name u s f single b))
      ∙ banned_lem u (check_and_lift_expired_ban now u.id s).0 lapsed a
      ∙ may_enter-banned u lapsed a b refl

  admit_account-decides :
      (wants_admin : Bool) (name : Text) (s : Store) (o : Option User)
      → get_user_by_username name s ≡ o
      → Single o s.users
      → (admit_account wants_admin verify now password s o).1
        ≡ decides wants_admin verify now password o
  unfolding admit_account decides Single
  admit_account-decides true name s none f single = refl
  admit_account-decides false name s none f single = refl
  admit_account-decides true name s (some u) f single = elim (Bool-cases (is_admin u.role)) [
    | inl e ↦ rw e (lifted-entered name u s u.status refl f single)
    | inr e ↦ rw e refl
  ]
  admit_account-decides false name s (some u) f single = elim (Bool-cases (is_admin u.role)) [
    | inl e ↦ rw e refl
    | inr e ↦ rw e (lifted-entered name u s u.status refl f single)
  ]

-- A listener lets in exactly who may enter there. On the public one, a name that is not "new" enters if
-- and only if it is the name of an account that is no admin's, is active or has a timed ban that is over,
-- is not locked, and has the hash of the given password; on the admin one the same holds with an admin's
-- account. The account's id is no other row's.
pub public_password_handler-decides :
    (fold : ℕ → ℕ) (verify : Text → Text → Verdict) (reg_mode : Text) (now : ℕ)
    (username password : Text) (s : Store)
    → equal_fold fold username (codes "new") ≡ false
    → Single (get_user_by_username username s) s.users
    → ((public_password_handler fold verify reg_mode now username password s).1
        ≡ decides false verify now password (get_user_by_username username s))
      × ((admin_password_handler verify now username password s).1
          ≡ decides true verify now password (get_user_by_username username s))
unfolding public_password_handler admin_password_handler
public_password_handler-decides fold verify reg_mode now username password s e single = (
  rw e (
      admit_account-decides verify now password false username s (get_user_by_username username s)
        refl single),
  admit_account-decides verify now password true username s (get_user_by_username username s) refl
      single,
)
