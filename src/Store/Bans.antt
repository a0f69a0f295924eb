-- ===== src/Store/Bans.antt =====
-- internal/store/store.go: the answers of BanUser.
use retro_vax_bbs.Prelude.{
  ℕ, suc, ◌≤◌, ◌<◌, ◌≡◌, refl, sym, ap, ◌∙◌, Text, Bool, true, false, not, ◌&&◌, ◌||◌, Option, none,
  some, List, [], ◌∷◌, arith, ltb, if◌then◌else◌, Bool-cases, inl, inr, ◌⊎◌, subst,
}
use retro_vax_bbs.Store.Schema.{
  User, Store, not_found, last_usable_admin, usable_admin, named, count_rows, find_row, suspended,
}
use retro_vax_bbs.Store.Rows.{
  find_row-update_where, find_row-hit, find_row-skip, count_rows-monotone, count_rows-find_row,
}
use mathlib.Core.Option.{some-injective}
use retro_vax_bbs.Store.Accounts.{
  ban_until, ban_user, get_user_by_username, count_usable_admins, guarded, refusal, refusal_of,
}
use retro_vax_bbs.Store.Admins.{Unique}

and_left : (a b : Bool) → (a && b) ≡ true → a ≡ true
and_left true b h = refl
and_left false b h = h

first_only :
    (p : User → Bool) (w : User) (us : List User)
    → p w ≡ true
    → count_rows p (w ∷ us) ≤ 1
    → count_rows p us ≡ 0
unfolding count_rows
first_only p w us k le =
    omega (arith, ap (λ b. if b then suc (count_rows p us) else count_rows p us) k)

later_only :
    (p : User → Bool) (w : User) (us : List User)
    → p w ≡ false
    → count_rows p (w ∷ us) ≤ 1
    → count_rows p us ≤ 1
unfolding count_rows
later_only p w us k le =
    omega (arith, ap (λ b. if b then suc (count_rows p us) else count_rows p us) k)

-- The number of rows that satisfy two tests, of which one holds for one row at most.
module _ (p g : User → Bool) where
  none_counted : (us : List User) → count_rows p us ≡ 0 → count_rows (λ u. p u && g u) us ≡ 0
  none_counted us e =
      let fewer = count_rows-monotone (λ u. p u && g u) p (λ u. and_left (p u) (g u)) us in
      omega arith

  one_counted :
      (us : List User) (u : User)
      → find_row p us ≡ some u
      → count_rows p us ≤ 1
      → count_rows (λ u. p u && g u) us ≡ (if g u then 1 else 0)
  unfolding count_rows find_row
  one_counted [] u e le = absurd cc
  one_counted (w ∷ us) u e le = elim (Bool-cases (p w)) [
    | inl k ↦
        let rest : count_rows (λ u. p u && g u) us ≡ 0 = none_counted us (first_only p w us k le) in
        subst (λ u. count_rows (λ u. p u && g u) (w ∷ us) ≡ (if g u then 1 else 0))
          (some-injective w u (sym (find_row-hit p w us k) ∙ e))
          (elim (Bool-cases (g w)) [ inl l ↦ rw (k, l) (omega arith) | inr l ↦ rw (k, l) rest ])
    | inr k ↦ rw k (one_counted us u (sym (find_row-skip p w us k) ∙ e) (later_only p w us k le))
  ]

module _ (now : ℕ) (username : Text) (until : Option ℕ) (s : Store) where
  -- BanUser of a name that no account has answers ErrNotFound and changes nothing.
  pub ban_user-missing :
      get_user_by_username username s ≡ none → ban_user now username until s ≡ (s, some not_found)
  unfolding ban_user get_user_by_username guarded refusal
  ban_user-missing e =
      let no_row : count_rows (guarded now username s) s.users ≡ 0 =
        none_counted (named username) _ s.users
          ((count_rows-find_row (named username) s.users).0 e) in
      rw no_row (ap (λ o. (s, some (refusal_of o))) e)

  last_one :
      (u : User)
      → usable_admin now u ≡ true
      → count_usable_admins now s ≤ 1
      → (not (usable_admin now u) || ltb 1 (count_usable_admins now s)) ≡ false
  last_one u admin le = rw admin (ground (arith, le))

  open_guard :
      (u : User)
      → (usable_admin now u ≡ false) ⊎ (1 < count_usable_admins now s)
      → (not (usable_admin now u) || ltb 1 (count_usable_admins now s)) ≡ true
  open_guard u (inl e) = rw e refl
  open_guard u (inr lt) = elim (Bool-cases (usable_admin now u)) [
    | inl e ↦ rw e (ground (arith, lt))
    | inr e ↦ rw e refl
  ]

  named-found :
      (u : User)
      → (us : List User) → find_row (named username) us ≡ some u
      → named username u ≡ true
  unfolding find_row
  named-found u [] e = absurd cc
  named-found u (w ∷ us) e = elim (Bool-cases (named username w)) [
    | inl k ↦
        subst (λ u. named username u ≡ true)
          (some-injective w u (sym (find_row-hit (named username) w us k) ∙ e)) k
    | inr k ↦ named-found u us (sym (find_row-skip (named username) w us k) ∙ e)
  ]

  -- Where names are unique, BanUser of the only usable admin answers ErrLastUsableAdmin and changes
  -- nothing.
  pub ban_user-last :
      (u : User)
      → Unique s.users
      → get_user_by_username username s ≡ some u
      → usable_admin now u ≡ true
      → count_usable_admins now s ≤ 1
      → ban_user now username until s ≡ (s, some last_usable_admin)
  unfolding ban_user get_user_by_username guarded refusal
  ban_user-last u names e admin le =
      let no_row : count_rows (guarded now username s) s.users ≡ 0 =
        one_counted (named username) _ s.users u e (names username)
        ∙ ap (λ b. if b then 1 else 0) (last_one u admin le) in
      rw no_row (ap (λ o. (s, some (refusal_of o))) e)

  -- Where names are unique, BanUser of an account that is no usable admin, or not the only one,
  -- answers nil and leaves the account suspended until the given time, or until NeverExpires
  -- without one.
  pub ban_user-done :
      (u : User)
      → Unique s.users
      → get_user_by_username username s ≡ some u
      → (usable_admin now u ≡ false) ⊎ (1 < count_usable_admins now s)
      → ((ban_user now username until s).1 ≡ none)
        × (get_user_by_username username (ban_user now username until s).0
            ≡ some (record u { status = suspended; banned_until = some (ban_until until) }))
  unfolding ban_user get_user_by_username guarded named
  ban_user-done u names e free =
      let f : User → User =
        λ u. record u { status = suspended; banned_until = some (ban_until until) } in
      let open_row = open_guard u free in
      let one_row : count_rows (guarded now username s) s.users ≡ 1 =
        one_counted (named username) _ s.users u e (names username)
        ∙ ap (λ b. if b then 1 else 0) open_row in
      let passes : guarded now username s u ≡ true =
        ap (λ b. b && (not (usable_admin now u) || ltb 1 (count_usable_admins now s)))
          (named-found u s.users e)
        ∙ open_row in
      rw one_row (
        refl,
        find_row-update_where (guarded now username s) (named username) f (λ u. refl) s.users u e
            ∙ ap (λ b. some (if b then f u else u)) passes,
      )
