-- ===== src/Store/Admins.antt =====
-- internal/store/store.go: unique names and usable admins, statement by statement.
use retro_vax_bbs.Prelude.{
  ℕ, ◌≤◌, ◌<◌, ◌≡◌, refl, sym, ◌∙◌, Text, text_discrete, Bool, true, false, not, ◌&&◌, ◌||◌, Option,
  none, some, List, arith, ltb, leb, Bool-cases, inl, inr, subst, if_neg,
}
use retro_vax_bbs.Store.Schema.{
  User, Store, usable_admin, named, count_rows, update_rows, delete_rows, is_active, is_suspended,
  is_admin, ban_lapsed, next_row_id,
}
use retro_vax_bbs.Store.Rows.{
  count_rows-monotone, count_rows-update_rows, count_rows-delete_rows, count_rows-append,
  count_rows-none, count_rows-unchanged, count_rows-kept,
}
use retro_vax_bbs.Store.Accounts.{count_usable_admins, guarded, insert}

-- At most one row has a given name, and there is a usable admin at the time.
abbrev pub Unique : List User → Type 0
Unique us = (name : Text) → count_rows (named name) us ≤ 1

abbrev pub Sound : ℕ → Store → Type 0
Sound now s = Unique s.users × (1 ≤ count_usable_admins now s)

abbrev pub KeepsName : (User → User) → Type 0
KeepsName f = (name : Text) (u : User) → named name (f u) ≡ named name u

abbrev pub KeepsUsable : ℕ → (User → User) → Type 0
KeepsUsable now f = (u : User) → usable_admin now u ≡ true → usable_admin now (f u) ≡ true

pub update-Sound :
    (now : ℕ) (p : User → Bool) (f : User → User) (s : Store)
    → KeepsName f
    → KeepsUsable now f
    → Sound now s
    → Sound now (record s { users = update_rows p f s.users })
unfolding count_usable_admins
update-Sound now p f s keeps usable h = (
  λ name. omega (arith, h.0 name, count_rows-unchanged p (named name) f (keeps name) s.users),
  omega (arith, h.1, count_rows-kept p (usable_admin now) f usable s.users),
)

delete-Unique : (p : User → Bool) (us : List User) → Unique us → Unique (delete_rows p us)
delete-Unique p us h name = omega (arith, h name, count_rows-delete_rows p (named name) us)

both_false : (a b : Bool) → (a ≡ true → b ≡ false) → (a && b) ≡ false
both_false true b h = h refl
both_false false b h = refl

pub delete-Sound :
    (now : ℕ) (p : User → Bool) (s : Store)
    → ((u : User) → p u ≡ true → usable_admin now u ≡ false)
    → Sound now s
    → Sound now (record s { users = delete_rows p s.users })
unfolding count_usable_admins
delete-Sound now p s idle h =
    let lost =
      count_rows-none (λ u. p u && usable_admin now u)
        (λ u. both_false (p u) (usable_admin now u) (idle u)) s.users in
    (
      delete-Unique p s.users h.0,
      omega (arith, h.1, lost, count_rows-delete_rows p (usable_admin now) s.users),
    )

conj_first : (n x a : Bool) → ((n && x) && a) ≡ true → n ≡ true
conj_first true x a h = refl
conj_first false x a h = h

no_guard : (n a m : Bool) → m ≡ false → ((n && (not a || m)) && a) ≡ false
no_guard true true m h = ground (arith, h)
no_guard true false m h = ground (arith, h)
no_guard false a m h = refl

ltb-true : {a b : ℕ} → ltb a b ≡ true → a < b
ltb-true e = ground arith

-- The rows that the guard lets through hold fewer usable admins than the table.
pub guarded-spares :
    (now : ℕ) (name : Text) (s : Store)
    → Sound now s
    → count_rows (λ u. guarded now name s u && usable_admin now u) s.users
      < count_usable_admins now s
unfolding guarded
guarded-spares now name s h = elim (Bool-cases (ltb 1 (count_usable_admins now s))) [
  | inl e ↦
      let named_row : (u : User)
          → (guarded now name s u && usable_admin now u) ≡ true
          → named name u ≡ true =
        λ u.
          conj_first (named name u) (not (usable_admin now u) || ltb 1 (count_usable_admins now s))
            (usable_admin now u) in
      let one : count_rows (λ u. guarded now name s u && usable_admin now u) s.users
          ≤ count_rows (named name) s.users =
        count_rows-monotone (λ u. guarded now name s u && usable_admin now u) (named name) named_row
          s.users in
      let more : 1 < count_usable_admins now s = ltb-true e in omega (arith, h.0 name, one, more)
  | inr e ↦
      let idle : (u : User) → (guarded now name s u && usable_admin now u) ≡ false =
        λ u. no_guard (named name u) (usable_admin now u) (ltb 1 (count_usable_admins now s)) e in
      let none_lost : count_rows (λ u. guarded now name s u && usable_admin now u) s.users ≡ 0 =
        count_rows-none (λ u. guarded now name s u && usable_admin now u) idle s.users in
      omega (arith, h.1, none_lost)
]

pub delete_guarded-Sound :
    (now : ℕ) (name : Text) (s : Store)
    → Sound now s
    → Sound now (record s { users = delete_rows (guarded now name s) s.users })
unfolding count_usable_admins
delete_guarded-Sound now name s h = (
  delete-Unique (guarded now name s) s.users h.0,
  omega (
    arith,
    guarded-spares now name s h,
    count_rows-delete_rows (guarded now name s) (usable_admin now) s.users,
  ),
)

pub update_guarded-Sound :
    (now : ℕ) (name : Text) (f : User → User) (s : Store)
    → KeepsName f
    → Sound now s
    → Sound now (record s { users = update_rows (guarded now name s) f s.users })
unfolding count_usable_admins
update_guarded-Sound now name f s keeps h = (
  λ other. omega (
    arith,
    h.0 other,
    count_rows-unchanged (guarded now name s) (named other) f (keeps other) s.users,
  ),
  omega (
    arith,
    guarded-spares now name s h,
    count_rows-update_rows (guarded now name s) (usable_admin now) f s.users,
  ),
)

clash : {b : Bool} → b ≡ true → b ≡ false → ⊥
clash e f = cc

named-same :
    (name other : Text) (u : User) → u.username ≡ name → named other u ≡ true → name ≡ other
unfolding named
named-same name other u e h = elim (text_discrete u.username other) [
  | yes p ↦ sym e ∙ p
  | no q ↦ absurd (clash h (if_neg (text_discrete u.username other) q true false))
]

pub insert-Sound :
    (now : ℕ) (row : ℕ → User) (name : Text) (s : Store)
    → ((id : ℕ) → (row id).username ≡ name)
    → Sound now s
    → Sound now (insert row name s).0
unfolding insert count_usable_admins
insert-Sound now row name s e h = elim (Bool-cases (leb 1 (count_rows (named name) s.users))) [
  | inl taken ↦ rw taken h
  | inr free ↦
      let u : User = row (next_row_id s.users) in
      let absent : count_rows (named name) s.users ≡ 0 = ground arith in
      rw free (
        λ other. elim (Bool-cases (named other u)) [
          | inl same ↦
              let absent_other : count_rows (named other) s.users ≡ 0 =
                subst (λ x. count_rows (named x) s.users ≡ 0)
                  (named-same name other u (e (next_row_id s.users)) same) absent in
              grind (arith, count_rows-append (named other) s.users u)
          | inr other_name ↦ grind (arith, h.0 other, count_rows-append (named other) s.users u)
        ],
        omega (arith, h.1, count_rows-append (usable_admin now) s.users u),
      )
]

ban_lapsed-later :
    (now later : ℕ) (o : Option ℕ)
    → now ≤ later
    → ban_lapsed now o ≡ true
    → ban_lapsed later o ≡ true
ban_lapsed-later now later none le h = h
ban_lapsed-later now later (some t) le h = ground arith

weaken :
    (a b c x y : Bool)
    → (x ≡ true → y ≡ true)
    → (a && (b || (c && x))) ≡ true
    → (a && (b || (c && y))) ≡ true
weaken true true c x y f h = refl
weaken true false true x y f h = f h
weaken true false false x y f h = h
weaken false b c x y f h = h

-- Time only adds usable admins.
usable_admin-later :
    (now later : ℕ) (u : User)
    → now ≤ later
    → usable_admin now u ≡ true
    → usable_admin later u ≡ true
unfolding usable_admin
usable_admin-later now later u le h =
    weaken (is_admin u.role) (is_active u.status) (is_suspended u.status)
      (ban_lapsed now u.banned_until) (ban_lapsed later u.banned_until)
      (ban_lapsed-later now later u.banned_until le) h

pub later-Sound : (now later : ℕ) (s : Store) → now ≤ later → Sound now s → Sound later s
unfolding count_usable_admins
later-Sound now later s le h = (
  h.0,
  omega (
    arith,
    h.1,
    count_rows-monotone (usable_admin now) (usable_admin later)
        (λ u. usable_admin-later now later u le) s.users,
  ),
)
