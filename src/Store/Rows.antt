-- ===== src/Store/Rows.antt =====
-- internal/store/store.go: what updates and deletions do to the number of rows that satisfy a test.
use retro_vax_bbs.Prelude.{
  ◌+◌, ◌≤◌, ◌≡◌, refl, sym, ◌∙◌, Bool, true, false, ◌&&◌, Option, none, some, List, [], ◌∷◌, ◌++◌,
  arith, if◌then◌else◌, Bool-cases, inl, inr, ◌↔◌, subst,
}
use mathlib.Core.Option.{some-injective}
use retro_vax_bbs.Store.Schema.{User, count_rows, update_rows, delete_rows, find_row}

module _ (p q : User → Bool) where
  pub count_rows-monotone :
      ((u : User) → p u ≡ true → q u ≡ true) → (us : List User) → count_rows p us ≤ count_rows q us
  unfolding count_rows
  count_rows-monotone h [] = omega arith
  count_rows-monotone h (u ∷ us) = elim (Bool-cases (p u)) [
    | inl e ↦ rw (e, h u e) (omega (arith, count_rows-monotone h us))
    | inr e ↦ elim (Bool-cases (q u)) [
      | inl f ↦ rw (e, f) (omega (arith, count_rows-monotone h us))
      | inr f ↦ rw (e, f) (count_rows-monotone h us)
    ]
  ]

  -- Only the rows that the statement affects can stop satisfying q.
  pub count_rows-update_rows :
      (f : User → User) (us : List User)
      → count_rows q us ≤ count_rows q (update_rows p f us) + count_rows (λ u. p u && q u) us
  unfolding count_rows update_rows
  count_rows-update_rows f [] = omega arith
  count_rows-update_rows f (u ∷ us) =
      let ih = count_rows-update_rows f us in
      elim (Bool-cases (p u)) [
        | inl e ↦ elim (Bool-cases (q u)) [
          | inl g ↦ elim (Bool-cases (q (f u))) [
            | inl k ↦ rw (e, g, k) (omega (arith, ih))
            | inr k ↦ rw (e, g, k) (omega (arith, ih))
          ]
          | inr g ↦ elim (Bool-cases (q (f u))) [
            | inl k ↦ rw (e, g, k) (omega (arith, ih))
            | inr k ↦ rw (e, g, k) (omega (arith, ih))
          ]
        ]
        | inr e ↦ elim (Bool-cases (q u)) [
          | inl g ↦ rw (e, g) (omega (arith, ih))
          | inr g ↦ rw (e, g) (omega (arith, ih))
        ]
      ]

  pub count_rows-delete_rows :
      (us : List User)
      → count_rows q us ≡ count_rows q (delete_rows p us) + count_rows (λ u. p u && q u) us
  unfolding count_rows delete_rows
  count_rows-delete_rows [] = omega arith
  count_rows-delete_rows (u ∷ us) =
      let ih = count_rows-delete_rows us in
      elim (Bool-cases (p u)) [
        | inl e ↦ elim (Bool-cases (q u)) [
          | inl g ↦ rw (e, g) (omega (arith, ih))
          | inr g ↦ rw (e, g) (omega (arith, ih))
        ]
        | inr e ↦ elim (Bool-cases (q u)) [
          | inl g ↦ rw (e, g) (omega (arith, ih))
          | inr g ↦ rw (e, g) (omega (arith, ih))
        ]
      ]

pub count_rows-append :
    (p : User → Bool) (us : List User) (u : User)
    → count_rows p (us ++ (u ∷ [])) ≡ count_rows p us + (if p u then 1 else 0)
unfolding count_rows
count_rows-append p [] u = elim (Bool-cases (p u)) [
  | inl e ↦ rw e (omega arith)
  | inr e ↦ rw e (omega arith)
]
count_rows-append p (w ∷ us) u = elim (Bool-cases (p w)) [
  | inl e ↦ rw e (omega (arith, count_rows-append p us u))
  | inr e ↦ rw e (count_rows-append p us u)
]

pub count_rows-none :
    (p : User → Bool) → ((u : User) → p u ≡ false) → (us : List User) → count_rows p us ≡ 0
unfolding count_rows
count_rows-none p h [] = refl
count_rows-none p h (u ∷ us) = rw (h u) (count_rows-none p h us)

-- A test that the update leaves as it is counts the same rows.
pub count_rows-unchanged :
    (p q : User → Bool) (f : User → User)
    → ((u : User) → q (f u) ≡ q u)
    → (us : List User) → count_rows q (update_rows p f us) ≡ count_rows q us
unfolding count_rows update_rows
count_rows-unchanged p q f h [] = refl
count_rows-unchanged p q f h (u ∷ us) =
    let ih = count_rows-unchanged p q f h us in
    elim (Bool-cases (p u)) [ inl e ↦ rw (e, h u, ih) refl | inr e ↦ rw (e, ih) refl ]

pub find_row-hit :
    (p : User → Bool) (u : User) (us : List User) → p u ≡ true → find_row p (u ∷ us) ≡ some u
unfolding find_row
find_row-hit p u us e = rw e refl

pub find_row-skip :
    (p : User → Bool) (u : User) (us : List User)
    → p u ≡ false
    → find_row p (u ∷ us) ≡ find_row p us
unfolding find_row
find_row-skip p u us e = rw e refl

-- No row is counted exactly if none is found.
pub count_rows-find_row :
    (p : User → Bool) (us : List User) → (find_row p us ≡ none) ↔ (count_rows p us ≡ 0)
unfolding count_rows find_row
count_rows-find_row p [] = (λ e. refl, λ e. refl)
count_rows-find_row p (u ∷ us) = elim (Bool-cases (p u)) [
  | inl e ↦ rw e (λ h. absurd cc, λ h. absurd (omega arith))
  | inr e ↦ rw e (count_rows-find_row p us)
]

abbrev pub option_map : (User → User) → Option User → Option User
option_map f none = none
option_map f (some u) = some (f u)

-- The first row of an updated table, if the update keeps the test.
pub find_row-update_rows :
    (p : User → Bool) (f : User → User)
    → ((u : User) → p (f u) ≡ p u)
    → (us : List User) → find_row p (update_rows p f us) ≡ option_map f (find_row p us)
unfolding find_row update_rows
find_row-update_rows p f h [] = refl
find_row-update_rows p f h (u ∷ us) = elim (Bool-cases (p u)) [
  | inl e ↦ rw (e, h u, e) refl
  | inr e ↦ rw (e, e) (find_row-update_rows p f h us)
]

-- An update that keeps a test does not lower its count.
pub count_rows-kept :
    (p q : User → Bool) (f : User → User)
    → ((u : User) → q u ≡ true → q (f u) ≡ true)
    → (us : List User) → count_rows q us ≤ count_rows q (update_rows p f us)
unfolding count_rows update_rows
count_rows-kept p q f h [] = omega arith
count_rows-kept p q f h (u ∷ us) =
    let ih = count_rows-kept p q f h us in
    elim (Bool-cases (q u)) [
      | inl g ↦ elim (Bool-cases (p u)) [
        | inl e ↦ rw (e, g, h u g) (omega (arith, ih))
        | inr e ↦ rw (e, g) (omega (arith, ih))
      ]
      | inr g ↦ elim (Bool-cases (q (if p u then f u else u))) [
        | inl k ↦ rw (g, k) (omega (arith, ih))
        | inr k ↦ rw (g, k) ih
      ]
    ]

-- The first row of a table in which the rows of another test are updated.
pub find_row-update_where :
    (p q : User → Bool) (f : User → User)
    → ((u : User) → q (f u) ≡ q u)
    → (us : List User) (u : User) → find_row q us ≡ some u
    → find_row q (update_rows p f us) ≡ some (if p u then f u else u)
unfolding find_row update_rows
find_row-update_where p q f h [] u e = absurd cc
find_row-update_where p q f h (w ∷ us) u e = elim (Bool-cases (q w)) [
  | inl g ↦
      let same : w ≡ u = some-injective w u (sym (find_row-hit q w us g) ∙ e) in
      subst
        (λ u.
          find_row q ((if p w then f w else w) ∷ update_rows p f us)
          ≡ some (if p u then f u else u))
        same (elim (Bool-cases (p w)) [ inl k ↦ rw (k, h w, g) refl | inr k ↦ rw (k, g) refl ])
  | inr g ↦
      let rest = find_row-update_where p q f h us u (sym (find_row-skip q w us g) ∙ e) in
      elim (Bool-cases (p w)) [ inl k ↦ rw (k, h w, g) rest | inr k ↦ rw (k, g) rest ]
]

pub count_rows-hit :
    (p : User → Bool) (w : User) (us : List User)
    → p w ≡ true
    → count_rows p (w ∷ us) ≡ count_rows p us + 1
unfolding count_rows
count_rows-hit p w us e = rw e (omega arith)

pub count_rows-skip :
    (p : User → Bool) (w : User) (us : List User)
    → p w ≡ false
    → count_rows p (w ∷ us) ≡ count_rows p us
unfolding count_rows
count_rows-skip p w us e = rw e refl

-- A row that is found is counted by every test that it satisfies.
pub count_rows-found :
    (p q : User → Bool) (us : List User) (u : User)
    → find_row p us ≡ some u
    → q u ≡ true
    → 1 ≤ count_rows q us
unfolding count_rows find_row
count_rows-found p q [] u e h = absurd cc
count_rows-found p q (w ∷ us) u e h = elim (Bool-cases (p w)) [
  | inl g ↦
      let same : w ≡ u = some-injective w u (sym (find_row-hit p w us g) ∙ e) in
      omega (arith, count_rows-hit q w us (subst (λ x. q x ≡ true) (sym same) h))
  | inr g ↦
      let rest = count_rows-found p q us u (sym (find_row-skip p w us g) ∙ e) h in
      elim (Bool-cases (q w)) [
        | inl k ↦ omega (arith, count_rows-hit q w us k)
        | inr k ↦ omega (arith, count_rows-skip q w us k, rest)
      ]
]
