-- ===== src/Store/Lockout.antt =====
-- internal/store/store.go: the two predicates of a usable admin, and the lock after failed logins.
use retro_vax_bbs.Prelude.{
  ℕ, ◌+◌, ◌≡◌, refl, sym, ap, ◌∙◌, Bool, true, false, not, ◌&&◌, ◌||◌, Option, none, some, List, [],
  ◌∷◌, arith, leb, if◌then◌else◌, Bool-cases, inl, inr, ◌⊎◌, length,
}
use retro_vax_bbs.Store.Schema.{
  User, Store, usable_admin, is_usable_admin, is_admin, is_active, is_suspended, ban_lapsed,
  ban_over, has_id, datetime,
}
use retro_vax_bbs.Store.Rows.{option_map, find_row-update_rows}
use retro_vax_bbs.Store.Accounts.{record_failed_attempt, get_user_by_id, failed_once}

-- The ban ended within the current second.
abbrev pub EndedJustNow : ℕ → Option ℕ → Type 0
EndedJustNow now o = (t : ℕ) × (o ≡ some t) × (datetime now ≡ t)

bans_agree :
    (now : ℕ) (o : Option ℕ)
    → (ban_over now o ≡ ban_lapsed now o)
      ⊎ ((ban_over now o ≡ true) × (ban_lapsed now o ≡ false) × EndedJustNow now o)
bans_agree now none = inl refl
bans_agree now (some t) = elim (Bool-cases (ban_over now (some t))) [
  | inl over ↦ elim (Bool-cases (ban_lapsed now (some t))) [
    | inl lapsed ↦ inl (over ∙ sym lapsed)
    | inr lapsed ↦ inr (over, lapsed, (t, refl, ground arith))
  ]
  | inr over ↦ inl (over ∙ sym (ground arith))
]

twins :
    (a b c x : Bool)
    → (if not a then false else if b then true else c && x) ≡ (a && (b || (c && x)))
twins true true c x = refl
twins true false c x = refl
twins false b c x = refl

late :
    (a b c : Bool)
    → ((a && (b || (c && true))) ≡ (a && (b || (c && false))))
      ⊎ (((a && (b || (c && true))) ≡ true) × ((a && (b || (c && false))) ≡ false))
late true true c = inl refl
late true false true = inr (refl, refl)
late true false false = inl refl
late false b c = inl refl

-- IsUsableAdmin and the SQL predicate agree on an account, or only IsUsableAdmin counts it, and its ban
-- ended within the current second.
pub is_usable_admin-usable_admin :
    (now : ℕ) (u : User)
    → (is_usable_admin now u ≡ usable_admin now u)
      ⊎ ((is_usable_admin now u ≡ true)
          × (usable_admin now u ≡ false)
          × EndedJustNow now u.banned_until)
unfolding usable_admin is_usable_admin
is_usable_admin-usable_admin now u =
    rw
      (twins (is_admin u.role) (is_active u.status) (is_suspended u.status)
        (ban_over now u.banned_until))
      (elim (bans_agree now u.banned_until) [
        | inl e ↦ rw e (inl refl)
        | inr e ↦
            rw (e.0, e.1)
              (elim (late (is_admin u.role) (is_active u.status) (is_suspended u.status)) [
                | inl same ↦ inl same
                | inr apart ↦ inr (apart.0, apart.1, e.2)
              ])
      ])

-- Failed logins of one account at the given times, with no success between.
unfoldable pub fail_all : List ℕ → ℕ → Store → Store
fail_all [] id s = s
fail_all (now ∷ rest) id s = fail_all rest id (record_failed_attempt now id s)

failed_once-id : (now id : ℕ) (u : User) → has_id id (failed_once now u) ≡ has_id id u
unfolding failed_once
failed_once-id now id u = refl

failed_once_lem :
    (now : ℕ) (u : User)
    → ((failed_once now u).failed_attempts ≡ u.failed_attempts + 1)
      × ((failed_once now u).locked_until ≡ (
          if leb 5 (failed_once now u).failed_attempts
          then some (datetime now + 900)
          else u.locked_until))
unfolding failed_once
failed_once_lem now u = (refl, refl)

get-record_failed_attempt :
    (now id : ℕ) (s : Store)
    → get_user_by_id id (record_failed_attempt now id s)
      ≡ option_map (failed_once now) (get_user_by_id id s)
unfolding get_user_by_id record_failed_attempt
get-record_failed_attempt now id s =
    find_row-update_rows (has_id id) (failed_once now) (failed_once-id now id) s.users

-- A row after failures, the last at a given time, from the row before them.
abbrev pub Locked : ℕ → ℕ → User → Option User → Type 0
Locked last more u o =
    (v : User) × (o ≡ some v)
    × (v.failed_attempts ≡ u.failed_attempts + more)
    × (v.locked_until
        ≡ (if leb 5 v.failed_attempts then some (datetime last + 900) else u.locked_until))

-- After failed logins of an account at any times and one more at a given time, with no success between,
-- all of them are counted; if the count has then reached five, the account is locked until 900 seconds
-- after the last one, and otherwise its lock is as it was.
pub fail_all-Locked :
    (times : List ℕ) (last id : ℕ) (s : Store) (u : User)
    → get_user_by_id id s ≡ some u
    → Locked last
        (length times + 1)
        u
        (get_user_by_id id (record_failed_attempt last id (fail_all times id s)))
unfolding fail_all
fail_all-Locked [] last id s u e = (
  failed_once last u,
  get-record_failed_attempt last id s ∙ ap (option_map (failed_once last)) e,
  omega (arith, (failed_once_lem last u).0),
  (failed_once_lem last u).1,
)
fail_all-Locked (now ∷ rest) last id s u e =
    let ih =
      fail_all-Locked rest last id (record_failed_attempt now id s) (failed_once now u)
        (get-record_failed_attempt now id s ∙ ap (option_map (failed_once now)) e) in
    (
      ih.0,
      ih.1,
      omega (arith, ih.2, (failed_once_lem now u).0),
      elim (Bool-cases (leb 5 ih.0.failed_attempts)) [
        | inl e ↦ rw e (
            ih.3
            ∙ ap (λ b. if b then some (datetime last + 900) else (failed_once now u).locked_until)
                e)
        | inr e ↦
            let few : leb 5 (failed_once now u).failed_attempts ≡ false = ground (arith, ih.2) in
            rw e (
              ih.3
              ∙ ap (λ b. if b then some (datetime last + 900) else (failed_once now u).locked_until)
                  e
              ∙ (failed_once_lem now u).1
              ∙ ap (λ b. if b then some (datetime now + 900) else u.locked_until) few)
      ],
    )
