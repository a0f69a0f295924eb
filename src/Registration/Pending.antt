-- ===== src/Registration/Pending.antt =====
-- internal/registration/app.go: what the calls of the store in finalise do to the two tables.
use retro_vax_bbs.Prelude.{
  ℕ, ◌≡◌, refl, sym, ap, ◌∙◌, Text, text_discrete, Bool, true, false, ◌&&◌, none, some, List, [],
  ◌∷◌, ◌++◌, All, arith, leb, ltb, ◌==◌, Bool-cases, inl, inr, ◌⊎◌, if_pos,
}
use retro_vax_bbs.Store.Schema.{
  User, Store, username_taken, pending, active, user, named, is_pending, count_rows, update_rows,
  delete_rows, find_row, next_row_id,
}
use retro_vax_bbs.Store.Accounts.{
  Result, get_user_by_username, create_pending_account, activate_account, reject_pending_account,
  free_username, insert, new_row, nullable_string, pending_named, deleted, expired_pending,
}
use retro_vax_bbs.Store.Rows.{count_rows-hit, count_rows-skip, count_rows-monotone}
use retro_vax_bbs.Store.Standing.{delete_users-cases, and_left}

All-delete_rows {ℓ} :
    (P : User → Type ℓ) (p : User → Bool) (us : List User) → All P us → All P (delete_rows p us)
unfolding delete_rows
All-delete_rows P p [] h = tt
All-delete_rows P p (u ∷ us) h = elim (Bool-cases (p u)) [
  | inl e ↦ rw e (All-delete_rows P p us h.1)
  | inr e ↦ rw e (h.0, All-delete_rows P p us h.1)
]

pub All-snoc {ℓ} :
    (P : User → Type ℓ) (us : List User) (u : User) → All P us → P u → All P (us ++ u ∷ [])
All-snoc P [] u h p = (p, tt)
All-snoc P (w ∷ us) u h p = (h.0, All-snoc P us u h.1 p)

-- An update that affects no row of the table but its last.
update_rows-last :
    (p : User → Bool) (f : User → User) (us : List User) (u : User)
    → count_rows p us ≡ 0
    → p u ≡ true
    → update_rows p f (us ++ u ∷ []) ≡ us ++ f u ∷ []
unfolding update_rows count_rows
update_rows-last p f [] u none_there e = rw e refl
update_rows-last p f (w ∷ us) u none_there e = elim (Bool-cases (p w)) [
  | inl g ↦ absurd (omega (arith, none_there, count_rows-hit p w us g))
  | inr g ↦ rw g (
      ap (λ ws. w ∷ ws) (update_rows-last p f us u (sym (count_rows-skip p w us g) ∙ none_there) e))
]

find_row-last :
    (p : User → Bool) (us : List User) (u : User)
    → count_rows p us ≡ 0
    → p u ≡ true
    → find_row p (us ++ u ∷ []) ≡ some u
unfolding count_rows find_row
find_row-last p [] u none_there e = rw e refl
find_row-last p (w ∷ us) u none_there e = elim (Bool-cases (p w)) [
  | inl g ↦ absurd (omega (arith, none_there, count_rows-hit p w us g))
  | inr g ↦ rw g (find_row-last p us u (sym (count_rows-skip p w us g) ∙ none_there) e)
]

-- DELETE leaves rows that were there, and no invite changes.
module _ (P : User → Type 0) (enforced : Bool) where
  pub free_username-Kept :
      (now : ℕ) (name : Text) (expiry : ℕ) (s : Store)
      → All P s.users
      → All P (free_username enforced now name expiry s).users
        × ((free_username enforced now name expiry s).invites ≡ s.invites)
  unfolding free_username
  free_username-Kept now name expiry s h = elim (Bool-cases (ltb 0 expiry)) [
    | inl e ↦
        let gone = λ (u : User). named name u && expired_pending now expiry u in
        elim (delete_users-cases enforced gone s) [
          | inl d ↦ rw (e, d) (h, refl)
          | inr d ↦ rw (e, d) (All-delete_rows P gone s.users h, refl)
        ]
    | inr e ↦ rw e (h, refl)
  ]

  pub reject_pending_account-Kept :
      (name : Text) (s : Store)
      → All P s.users
      → All P (reject_pending_account enforced name s).0.users
        × ((reject_pending_account enforced name s).0.invites ≡ s.invites)
  unfolding reject_pending_account deleted
  reject_pending_account-Kept name s h = elim (delete_users-cases enforced (pending_named name) s) [
    | inl d ↦ rw d (h, refl)
    | inr d ↦ elim (Bool-cases (count_rows (pending_named name) s.users == 0)) [
      | inl e ↦ rw (d, e) (All-delete_rows P (pending_named name) s.users h, refl)
      | inr e ↦ rw (d, e) (All-delete_rows P (pending_named name) s.users h, refl)
    ]
  ]

abbrev pub Anything : User → Type 0
Anything u = Unit

All-trivial : (us : List User) → All Anything us
All-trivial [] = tt
All-trivial (u ∷ us) = (tt, All-trivial us)

pub free_username-invites :
    (enforced : Bool) (now : ℕ) (name : Text) (expiry : ℕ) (s : Store)
    → (free_username enforced now name expiry s).invites ≡ s.invites
free_username-invites enforced now name expiry s =
    (free_username-Kept Anything enforced now name expiry s (All-trivial s.users)).1

pub reject_pending_account-invites :
    (enforced : Bool) (name : Text) (s : Store)
    → (reject_pending_account enforced name s).0.invites ≡ s.invites
reject_pending_account-invites enforced name s =
    (reject_pending_account-Kept Anything enforced name s (All-trivial s.users)).1

-- A row that an account is created with.
abbrev pub pending_row : ℕ → ℕ → Text → Text → Text → User
pending_row now id name email hash = new_row now id name (nullable_string email) hash pending user

named_self : (name : Text) (u : User) → u.username ≡ name → named name u ≡ true
unfolding named
named_self name u e = if_pos (text_discrete u.username name) e true false

pending_named-none :
    (name : Text) (us : List User)
    → count_rows (named name) us ≡ 0
    → count_rows (pending_named name) us ≡ 0
pending_named-none name us e = omega (
  arith,
  e,
  count_rows-monotone (pending_named name) (named name)
      (λ u h. and_left (named name u) (is_pending u.status) h) us,
)

-- What CreatePendingAccount returns: nothing but freed rows and an error, or one row more at the end.
abbrev pub Created : Bool → ℕ → Text → Text → Text → ℕ → Store → Result → Type 0
Created enforced now name email hash expiry s r =
    (r ≡ (free_username enforced now name expiry s, some username_taken))
    ⊎ ((id : ℕ) × (count_rows (named name) (free_username enforced now name expiry s).users ≡ 0)
        × (r ≡ (
          record (free_username enforced now name expiry s) {
            users =
                (free_username enforced now name expiry s).users
                ++ pending_row now id name email hash ∷ [];
          },
          none,
        )))

pub create_pending_account-Created :
    (enforced : Bool) (now : ℕ) (name email hash : Text) (expiry : ℕ) (s : Store)
    → Created enforced now name email hash expiry s
        (create_pending_account enforced now name email hash expiry s)
unfolding create_pending_account insert
create_pending_account-Created enforced now name email hash expiry s =
    let t = free_username enforced now name expiry s in
    elim (Bool-cases (leb 1 (count_rows (named name) t.users))) [
      | inl e ↦ rw e (inl refl)
      | inr e ↦ rw e (inr (next_row_id t.users, ground (arith, e), refl))
    ]

-- ActivateAccount makes the new row active, and it alone; it is then the account of its name.
pub activate_account-last :
    (now id : ℕ) (name email hash : Text) (t : Store)
    → count_rows (named name) t.users ≡ 0
    → (activate_account name
          (record t { users = t.users ++ pending_row now id name email hash ∷ [] })
        ≡ record t {
          users = t.users ++ record (pending_row now id name email hash) { status = active } ∷ [];
        })
      × (get_user_by_username name (record t {
        users = t.users ++ record (pending_row now id name email hash) { status = active } ∷ [];
      })
          ≡ some (record (pending_row now id name email hash) { status = active }))
unfolding activate_account get_user_by_username new_row
activate_account-last now id name email hash t e =
    let row = pending_row now id name email hash in
    (
      ap (λ us. record t { users = us })
          (update_rows-last (pending_named name) (λ u. record u { status = active }) t.users row
            (pending_named-none name t.users e) (rw (named_self name row refl) refl)),
      find_row-last (named name) t.users (record row { status = active }) e
          (named_self name _ refl),
    )
