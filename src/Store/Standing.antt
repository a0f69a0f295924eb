-- ===== src/Store/Standing.antt =====
-- internal/store/store.go: which updates and deletions of users leave the usable admins as they are.
use retro_vax_bbs.Prelude.{
  ℕ, ◌≡◌, refl, sym, ◌∙◌, Text, Bool, true, false, ◌&&◌, ◌||◌, Option, none, some, ◌⊎◌, any,
  Bool-cases, inl, inr, subst,
}
use retro_vax_bbs.Store.Schema.{
  Role, Status, User, Store, usable_admin, named, delete_rows, delete_users, referenced, is_pending,
  is_active, is_suspended, is_admin, ban_lapsed, active, pending, suspended,
}
use mathlib.Core.Option.{some-injective}
use retro_vax_bbs.Store.Accounts.{failed_once, count_usable_admins, new_row}
use retro_vax_bbs.Store.Admins.{Sound, KeepsName, KeepsUsable, delete-Sound}

-- A user whose status becomes active is a usable admin if it is an admin.
pub activated : (a b : Bool) → (a && b) ≡ true → (a && true) ≡ true
activated true b h = refl
activated false b h = h

pub lifted : (now : ℕ) → KeepsUsable now (λ u. record u { status = active; banned_until = none })
unfolding usable_admin
lifted now u h = activated (is_admin u.role) _ h

pub approved : (now : ℕ) → KeepsUsable now (λ u. record u { status = active })
unfolding usable_admin
approved now u h = activated (is_admin u.role) _ h

pub idle_status :
    (a : Bool) (st : Status) (x : Bool)
    → is_pending st ≡ true
    → (a && (is_active st || (is_suspended st && x))) ≡ false
idle_status true pending x h = refl
idle_status false st x h = refl
idle_status true active x h = sym h
idle_status true suspended x h = absurd cc

pub pending_unusable :
    (now : ℕ) (u : User) → is_pending u.status ≡ true → usable_admin now u ≡ false
unfolding usable_admin
pending_unusable now u h = idle_status (is_admin u.role) u.status (ban_lapsed now u.banned_until) h

pub and_right : (a b : Bool) → (a && b) ≡ true → b ≡ true
and_right true b h = h
and_right false b h = absurd cc

pub and_left : (a b : Bool) → (a && b) ≡ true → a ≡ true
and_left true b h = refl
and_left false b h = h

-- What a deletion leaves: the rows without those of the test, or the store as it was.
pub delete_users-cases :
    (enforced : Bool) (p : User → Bool) (s : Store)
    → (delete_users enforced p s ≡ none)
      ⊎ (delete_users enforced p s ≡ some (record s { users = delete_rows p s.users }))
unfolding delete_users
delete_users-cases enforced p s =
    elim (Bool-cases (enforced && (any (λ u. p u && referenced s.invites u) s.users))) [
      | inl e ↦ rw e (inl refl)
      | inr e ↦ rw e (inr refl)
    ]

-- Updates of columns that neither the name nor the predicate of a usable admin reads.
pub failed_once-KeepsUsable : (now : ℕ) (clock : ℕ) → KeepsUsable now (failed_once clock)
unfolding usable_admin failed_once
failed_once-KeepsUsable now clock u h = h

pub failed_once-KeepsName : (clock : ℕ) → KeepsName (failed_once clock)
unfolding named failed_once
failed_once-KeepsName clock name u = refl

pub same_users-Sound : (now : ℕ) (s t : Store) → t.users ≡ s.users → Sound now s → Sound now t
unfolding count_usable_admins
same_users-Sound now s t e h = rw e h

pub new_row-username :
    (now id : ℕ) (name : Text) (email : Option Text) (hash : Text) (st : Status) (role : Role)
    → (new_row now id name email hash st role).username ≡ name
unfolding new_row
new_row-username now id name email hash st role = refl

-- A deletion of pending rows.
pub pending-Sound :
    (enforced : Bool) (now : ℕ) (p : User → Bool) (s t : Store)
    → ((u : User) → p u ≡ true → is_pending u.status ≡ true)
    → delete_users enforced p s ≡ some t
    → Sound now s
    → Sound now t
pending-Sound enforced now p s t idle e h = elim (delete_users-cases enforced p s) [
  | inl f ↦ absurd cc
  | inr f ↦
      subst (λ t. Sound now t) (some-injective _ _ (sym f ∙ e))
        (delete-Sound now p s (λ u k. pending_unusable now u (idle u k)) h)
]
