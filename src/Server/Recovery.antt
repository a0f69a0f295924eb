-- ===== src/Server/Recovery.antt =====
-- cmd/server/main.go: when the bootstrap of an admin account leaves a usable admin.
use retro_vax_bbs.Prelude.{
  ℕ, ◌≤◌, ◌≡◌, refl, sym, ap, ◌∙◌, subst, Text, codes, Bool, true, false, ◌&&◌, Option, none, some,
  List, [], ◌∷◌, ◌++◌, ltb, leb, ◌==◌, if◌then◌else◌, arith, Bool-cases, inl, inr, ◌⊎◌,
}
use retro_vax_bbs.Registry.State.{is_empty}
use retro_vax_bbs.Phone.Calls.Admission.{equal_fold}
use retro_vax_bbs.Store.Schema.{
  User, Store, active, admin, is_admin, is_suspended, usable_admin, named, count_rows, update_rows,
  find_row, next_row_id,
}
use retro_vax_bbs.Store.Accounts.{
  get_user_by_username, create_user, set_password, unban_user, count_usable_admins, insert, new_row,
}
use retro_vax_bbs.Store.Rows.{
  count_rows-find_row, count_rows-append, count_rows-found, find_row-update_rows,
  find_row-update_where, find_row-hit, find_row-skip, option_map,
}
use mathlib.Core.Option.{some-injective}
use retro_vax_bbs.Registration.Model.{Hashed, hashed}
use retro_vax_bbs.Server.Bootstrap.{
  get_user_by_username_ci, or_fatal, create_admin, unban_next, recover_admin, create_unless,
  boot_existing, bootstrap_admin_account,
}

-- The bootstrap goes on, and there is a usable admin afterwards.
abbrev pub Boots : ℕ → Option Store → Type 0
Boots now o = (t : Store) × (o ≡ some t) × (1 ≤ count_usable_admins now t)

create_admin-Boots :
    (now : ℕ) (username h : Text) (s : Store)
    → get_user_by_username username s ≡ none
    → Boots now (create_admin now username s (hashed h))
unfolding create_admin or_fatal create_user insert get_user_by_username count_usable_admins new_row
    usable_admin
create_admin-Boots now username h s e =
    let none_there : count_rows (named username) s.users ≡ 0 =
      (count_rows-find_row (named username) s.users).0 e in
    let free : leb 1 (count_rows (named username) s.users) ≡ false = ground (arith, none_there) in
    let row = new_row now (next_row_id s.users) username none h active admin in
    (
      record s { users = s.users ++ row ∷ [] },
      rw free refl,
      omega (arith, count_rows-append (usable_admin now) s.users row),
    )

named-kept :
    (username h : Text) (u : User)
    → named username (record u { password_hash = some h; must_change_password = false })
      ≡ named username u
unfolding named
named-kept username h u = refl

named-active :
    (username : Text) (u : User)
    → named username (record u { status = active; banned_until = none }) ≡ named username u
unfolding named
named-active username u = refl

find_row-holds : (p : User → Bool) (us : List User) (u : User) → find_row p us ≡ some u → p u ≡ true
unfolding find_row
find_row-holds p [] u e = absurd cc
find_row-holds p (w ∷ us) u e = elim (Bool-cases (p w)) [
  | inl g ↦ subst (λ x. p x ≡ true) (some-injective w u (sym (find_row-hit p w us g) ∙ e)) g
  | inr g ↦ find_row-holds p us u (sym (find_row-skip p w us g) ∙ e)
]

positive : (n : ℕ) → 1 ≤ n → (n == 0) ≡ false
positive n le = ground (arith, le)

unban_user-Boots :
    (now : ℕ) (username : Text) (s : Store) (u : User)
    → find_row (named username) s.users ≡ some u
    → is_admin u.role ≡ true
    → is_suspended u.status ≡ true
    → Boots now (or_fatal (unban_user username s))
unfolding or_fatal unban_user count_usable_admins usable_admin
unban_user-Boots now username s u e is_an_admin is_banned =
    let banned : User → Bool = λ w. named username w && is_suspended w.status in
    let lift : User → User = λ w. record w { status = active; banned_until = none } in
    let its : banned u ≡ true = rw (find_row-holds (named username) s.users u e, is_banned) refl in
    let some_banned =
      positive (count_rows banned s.users)
        (count_rows-found (named username) banned s.users u e its) in
    let row =
      find_row-update_where banned (named username) lift (named-active username) s.users u e in
    (
      record s { users = update_rows banned lift s.users },
      rw some_banned refl,
      count_rows-found (named username) (usable_admin now) (update_rows banned lift s.users)
          (if banned u then lift u else u) row (rw (its, is_an_admin) refl),
    )

recover_admin-Boots :
    (now : ℕ) (username h : Text) (s : Store) (u : User)
    → find_row (named username) s.users ≡ some u
    → is_admin u.role ≡ true
    → is_suspended u.status ≡ true
    → Boots now (recover_admin username s (hashed h))
unfolding recover_admin set_password unban_next
recover_admin-Boots now username h s u e is_an_admin is_banned =
    let change : User → User =
      λ w. record w { password_hash = some h; must_change_password = false } in
    let held = find_row-holds (named username) s.users u e in
    let there =
      positive (count_rows (named username) s.users)
        (count_rows-found (named username) (named username) s.users u e held) in
    rw there (
      unban_user-Boots now username
        (record s { users = update_rows (named username) change s.users }) (change u)
        (find_row-update_rows (named username) change (named-kept username h) s.users
          ∙ ap (option_map change) e)
        is_an_admin is_banned)

zero_or_more : (n : ℕ) → 1 ≤ n → ltb 0 n ≡ false → ⊥
zero_or_more n le e = absurd (ground (arith, le, e))

-- What the bootstrap needs besides its two variables: a usable admin already, no account of the name in
-- any case, or a suspended admin's account of that very name.
abbrev pub Recoverable : ℕ → Text → Store → Type 0
Recoverable now username s =
    (1 ≤ count_usable_admins now s)
    ⊎ (((get_user_by_username username s ≡ none) × (get_user_by_username_ci username s ≡ none))
        ⊎ ((u : User) × (get_user_by_username username s ≡ some u)
            × (is_admin u.role ≡ true)
            × (is_suspended u.status ≡ true)))

recovered :
    (now : ℕ) (username h : Text) (s : Store) (u : User)
    → get_user_by_username username s ≡ some u
    → is_admin u.role ≡ true
    → is_suspended u.status ≡ true
    → Boots now (recover_admin username s (hashed h))
unfolding get_user_by_username
recovered now username h s u e a b = recover_admin-Boots now username h s u e a b

boot_existing-Boots :
    (now : ℕ) (username h : Text) (s : Store)
    → ((get_user_by_username username s ≡ none) × (get_user_by_username_ci username s ≡ none))
      ⊎ ((u : User) × (get_user_by_username username s ≡ some u)
          × (is_admin u.role ≡ true)
          × (is_suspended u.status ≡ true))
    → Boots now (boot_existing now username s (hashed h) (get_user_by_username username s))
unfolding boot_existing create_unless
boot_existing-Boots now username h s (inl (e, f)) =
    rw (e, f) (create_admin-Boots now username h s e)
boot_existing-Boots now username h s (inr (u, e, a, b)) =
    rw (e, a, b) (recovered now username h s u e a b)

-- With both variables set to anything but empty texts and "new", and with a hash for the password, the
-- bootstrap ends without a fatal error and with at least one usable admin, if there was one already, or
-- the name is that of a suspended admin's account, or of no account in any case of its letters.
pub bootstrap_admin_account-Boots :
    (fold : ℕ → ℕ) (hash : Text → Hashed) (now : ℕ) (username password h : Text) (s : Store)
    → is_empty username ≡ false
    → is_empty password ≡ false
    → equal_fold fold username (codes "new") ≡ false
    → hash password ≡ hashed h
    → Recoverable now username s
    → Boots now (bootstrap_admin_account fold hash now username password s)
unfolding bootstrap_admin_account
bootstrap_admin_account-Boots fold hash now username password h s a b c d r =
    elim (Bool-cases (ltb 0 (count_usable_admins now s))) [
      | inl e ↦ rw (a, b, c, e) (s, refl, ground (arith, e))
      | inr e ↦
          rw (a, b, c, e, d)
            (elim r [
              | inl le ↦ absurd (zero_or_more (count_usable_admins now s) le e)
              | inr o ↦ boot_existing-Boots now username h s o
            ])
    ]
