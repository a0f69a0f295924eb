-- ===== src/Phone/Calls/Tables.antt =====
-- internal/phone/call.go: what writes to the two tables do to sums over their entries, and to
-- properties of all entries.
use retro_vax_bbs.Prelude.{
  ℕ, ◌+◌, ◌≤◌, ◌≡◌, ◌≢◌, refl, Text, text_discrete, Bool, false, ◌&&◌, none, some, List, [], ◌∷◌,
  if◌then◌else◌, arith, All, Bool-cases, inl, inr, if_pos, if_neg, subst, sym,
}
use retro_vax_bbs.Phone.Calls.State.{
  Call, PendingAdd, delete_add, delete_call, find_add, find_call, same, set_call,
}

abbrev pub total {ℓ} : {A : Type ℓ} → (A → ℕ) → List A → ℕ
total w [] = 0
total w (x ∷ xs) = w x + total w xs

abbrev pub without {ℓ} : {A : Type ℓ} → (A → Bool) → List A → List A
without p [] = []
without p (x ∷ xs) = let rest = without p xs in if p x then rest else x ∷ rest

module _ {ℓ} {A : Type ℓ} where
  pub total-without-le :
      (w : A → ℕ) (p : A → Bool) (xs : List A) → total w (without p xs) ≤ total w xs
  total-without-le w p [] = omega arith
  total-without-le w p (x ∷ xs) = ground (arith, total-without-le w p xs)

  pub All-without {κ} :
      (P : A → Type κ) (p : A → Bool) (xs : List A)
      → All P xs
      → All (λ x. P x × (p x ≡ false)) (without p xs)
  All-without P p [] h = tt
  All-without P p (x ∷ xs) h = elim (Bool-cases (p x)) [
    | inl e ↦ rw e (All-without P p xs h.1)
    | inr e ↦ rw e ((h.0, e), All-without P p xs h.1)
  ]

  pub All-map {κ κ'} :
      (P : A → Type κ) (Q : A → Type κ')
      → ((x : A) → P x → Q x)
      → (xs : List A) → All P xs
      → All Q xs
  All-map P Q f [] h = tt
  All-map P Q f (x ∷ xs) h = (f x h.0, All-map P Q f xs h.1)

pub find_call-id : (id : Text) (cs : List Call) (c : Call) → find_call id cs ≡ some c → c.id ≡ id
unfolding find_call
find_call-id id [] c e = cc
find_call-id id (d ∷ cs) c e = ground (arith, find_call-id id cs c)

-- The call that is found stands in the table under its own id.
pub find_call_here :
    (id : Text) (cs : List Call) (c : Call) → find_call id cs ≡ some c → find_call c.id cs ≡ some c
find_call_here id cs c e = subst (λ i. find_call i cs ≡ some c) (sym (find_call-id id cs c e)) e

pub total-delete_call :
    (w : Call → ℕ) (id : Text) (cs : List Call) (c : Call)
    → find_call id cs ≡ some c
    → total w cs ≡ w c + total w (delete_call id cs)
unfolding find_call delete_call
total-delete_call w id [] c e = cc
total-delete_call w id (d ∷ cs) c e = ground (arith, total-delete_call w id cs c)

pub delete_call_absent :
    (id : Text) (cs : List Call) → find_call id cs ≡ none → delete_call id cs ≡ cs
unfolding find_call delete_call
delete_call_absent id [] e = refl
delete_call_absent id (d ∷ cs) e = ground (arith, delete_call_absent id cs)

pub total-set_call :
    (w : Call → ℕ) (d : Call) (cs : List Call) (c : Call)
    → find_call d.id cs ≡ some c
    → w d + total w cs ≡ w c + total w (set_call d cs)
unfolding find_call set_call
total-set_call w d [] c e = cc
total-set_call w d (x ∷ cs) c e = ground (arith, total-set_call w d cs c)

pub All-delete_call {κ} :
    (P : Call → Type κ) (id : Text) (cs : List Call) → All P cs → All P (delete_call id cs)
unfolding delete_call
All-delete_call P id [] h = tt
All-delete_call P id (d ∷ cs) h = elim (text_discrete d.id id) [
  | yes e ↦ rw (if_pos _ e) h.1
  | no e ↦ rw (if_neg _ e) (h.0, All-delete_call P id cs h.1)
]

pub All-set_call {κ} :
    (P : Call → Type κ) (d : Call) (cs : List Call) → P d → All P cs → All P (set_call d cs)
unfolding set_call
All-set_call P d [] pd h = tt
All-set_call P d (x ∷ cs) pd h = elim (text_discrete x.id d.id) [
  | yes e ↦ rw (if_pos _ e) (pd, h.1)
  | no e ↦ rw (if_neg _ e) (h.0, All-set_call P d cs pd h.1)
]

pub All-find_call {κ} :
    (P : Call → Type κ) (id : Text) (cs : List Call) (c : Call)
    → find_call id cs ≡ some c
    → All P cs
    → P c
unfolding find_call
All-find_call P id [] c e h = absurd (cc)
All-find_call P id (d ∷ cs) c e h = elim (text_discrete d.id id) [
  | yes p ↦ subst P (ground arith) h.0
  | no n ↦ All-find_call P id cs c (ground arith) h.1
]

-- No two entries of the table have one id.
abbrev pub Distinct : List Call → Type 0
Distinct [] = Unit
Distinct (c ∷ cs) = (find_call c.id cs ≡ none) × Distinct cs

pub find-delete_call_ne :
    (id j : Text) (cs : List Call) → id ≢ j → find_call j (delete_call id cs) ≡ find_call j cs
unfolding find_call delete_call
find-delete_call_ne id j [] h = refl
find-delete_call_ne id j (d ∷ cs) h = ground (arith, find-delete_call_ne id j cs)

pub find-delete_call_self :
    (id : Text) (cs : List Call) → Distinct cs → find_call id (delete_call id cs) ≡ none
unfolding find_call delete_call
find-delete_call_self id [] h = refl
find-delete_call_self id (d ∷ cs) h = ground (arith, find-delete_call_self id cs h.1)

pub find-set_call_self :
    (d c : Call) (cs : List Call)
    → find_call d.id cs ≡ some c
    → find_call d.id (set_call d cs) ≡ some d
unfolding find_call set_call
find-set_call_self d c [] e = cc
find-set_call_self d c (x ∷ cs) e = ground (arith, find-set_call_self d c cs)

pub find-set_call_ne :
    (d : Call) (j : Text) (cs : List Call) → d.id ≢ j → find_call j (set_call d cs) ≡ find_call j cs
unfolding find_call set_call
find-set_call_ne d j [] h = refl
find-set_call_ne d j (x ∷ cs) h = ground (arith, find-set_call_ne d j cs)

-- To write an entry and take it out is to take it out.
pub delete-set_call :
    (d : Call) (cs : List Call) → delete_call d.id (set_call d cs) ≡ delete_call d.id cs
unfolding delete_call set_call
delete-set_call d [] = refl
delete-set_call d (x ∷ cs) = ground (arith, delete-set_call d cs)

find-delete_call-none :
    (id j : Text) (cs : List Call) → find_call j cs ≡ none → find_call j (delete_call id cs) ≡ none
unfolding find_call delete_call
find-delete_call-none id j [] h = refl
find-delete_call-none id j (d ∷ cs) h = ground (arith, find-delete_call-none id j cs)

find-set_call-none :
    (d : Call) (j : Text) (cs : List Call)
    → find_call j cs ≡ none
    → find_call j (set_call d cs) ≡ none
unfolding find_call set_call
find-set_call-none d j [] h = refl
find-set_call-none d j (x ∷ cs) h = ground (arith, find-set_call-none d j cs)

find-without-none :
    (p : Call → Bool) (j : Text) (cs : List Call)
    → find_call j cs ≡ none
    → find_call j (without p cs) ≡ none
unfolding find_call
find-without-none p j [] h = refl
find-without-none p j (x ∷ cs) h = ground (arith, find-without-none p j cs)

-- Dropping entries that do not satisfy a test keeps the entry that was found and satisfies it.
pub find-without :
    (p : Call → Bool) (j : Text) (cs : List Call) (c : Call)
    → find_call j cs ≡ some c
    → p c ≡ false
    → find_call j (without p cs) ≡ some c
unfolding find_call
find-without p j [] c e h = cc
find-without p j (x ∷ cs) c e h = ground (arith, find-without p j cs c)

pub Distinct-delete_call : (id : Text) (cs : List Call) → Distinct cs → Distinct (delete_call id cs)
unfolding delete_call
Distinct-delete_call id [] h = tt
Distinct-delete_call id (d ∷ cs) h = elim (text_discrete d.id id) [
  | yes e ↦ rw (if_pos _ e) h.1
  | no e ↦ rw (if_neg _ e) (find-delete_call-none id d.id cs h.0, Distinct-delete_call id cs h.1)
]

pub Distinct-set_call : (d : Call) (cs : List Call) → Distinct cs → Distinct (set_call d cs)
unfolding set_call
Distinct-set_call d [] h = tt
Distinct-set_call d (x ∷ cs) h = elim (text_discrete x.id d.id) [
  | yes e ↦ rw (if_pos _ e) (ground (arith, e), h.1)
  | no e ↦ rw (if_neg _ e) (find-set_call-none d x.id cs h.0, Distinct-set_call d cs h.1)
]

pub Distinct-without : (p : Call → Bool) (cs : List Call) → Distinct cs → Distinct (without p cs)
Distinct-without p [] h = tt
Distinct-without p (x ∷ cs) h = elim (Bool-cases (p x)) [
  | inl e ↦ rw e (Distinct-without p cs h.1)
  | inr e ↦ rw e (find-without-none p x.id cs h.0, Distinct-without p cs h.1)
]

pub total-delete_add :
    (w : PendingAdd → ℕ) (id u : Text) (as' : List PendingAdd) (a : PendingAdd)
    → find_add id u as' ≡ some a
    → total w as' ≡ w a + total w (delete_add id u as')
unfolding find_add delete_add
total-delete_add w id u [] a e = cc
total-delete_add w id u (x ∷ xs) a e = ground (arith, total-delete_add w id u xs a)

pub All-delete_add {κ} :
    (P : PendingAdd → Type κ) (id u : Text) (as' : List PendingAdd)
    → All P as'
    → All P (delete_add id u as')
unfolding delete_add
All-delete_add P id u [] h = tt
All-delete_add P id u (x ∷ xs) h = elim (Bool-cases (same x.call_id id && same x.callee u)) [
  | inl e ↦ rw e h.1
  | inr e ↦ rw e (h.0, All-delete_add P id u xs h.1)
]

pub delete_add_absent :
    (id u : Text) (as' : List PendingAdd) → find_add id u as' ≡ none → delete_add id u as' ≡ as'
unfolding find_add delete_add
delete_add_absent id u [] e = refl
delete_add_absent id u (x ∷ xs) e = ground (arith, delete_add_absent id u xs)
