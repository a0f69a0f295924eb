-- ===== src/Store/Plan.antt =====
-- internal/store/plan.go: the plan text. A string is the list of its runes. unicode.IsPrint and
-- strings.TrimSpace are parameters.
use retro_vax_bbs.Prelude.{
  ℕ, ◌≤◌, ◌≡◌, refl, ap, Text, Bool, true, false, not, ◌&&◌, ◌||◌, Option, none, some, List, [],
  ◌∷◌, arith, ltb, leb, ◌==◌, if◌then◌else◌, Bool-cases, inl, inr, length, All, ◌⊎◌, ◌↔◌, ◌∙◌,
  ℕ_discrete, subst,
}
use retro_vax_bbs.Store.Schema.{User, Store, plan_too_long, named, update_rows, find_row}
use retro_vax_bbs.Store.Rows.{option_map, find_row-update_rows}
use retro_vax_bbs.Store.Accounts.{Result, get_user_by_username}

-- Where the loops of StripANSI stand: in the text, in a CSI sequence or in an OSC sequence.
pub data Place : Type 0 where
  text : Place
  csi : Place
  osc : Place

-- The switch on the rune after ESC.
abbrev pub after_escape : ℕ → Place
after_escape c = if c == 91 then csi else if c == 93 then osc else text

-- The final byte of a CSI sequence.
abbrev pub is_final : ℕ → Bool
is_final c = leb 64 c && leb c 126

-- A rune that is neither stripped as a control character nor as non-printable.
abbrev pub keeps : (ℕ → Bool) → ℕ → Bool
keeps is_print r =
    not (ltb r 32 && (not (r == 10) && not (r == 9)))
    && not ((r == 127) || (not (is_print r) && (not (r == 10) && not (r == 9))))

-- StripANSI
unfoldable pub strip_from : (ℕ → Bool) → Place → List ℕ → List ℕ
strip_from is_print place [] = []
strip_from is_print text (r ∷ []) = if r == 27 then [] else if keeps is_print r then r ∷ [] else []
strip_from is_print text (r ∷ c ∷ rs) = elim (r == 27) [
  | true ↦ strip_from is_print (after_escape c) rs
  | false ↦
      let rest = strip_from is_print text (c ∷ rs) in if keeps is_print r then r ∷ rest else rest
]
strip_from is_print csi (c ∷ rs) = strip_from is_print (if is_final c then text else csi) rs
strip_from is_print osc (c ∷ []) = []
strip_from is_print osc (c ∷ d ∷ rs) = elim ((c == 27) && (d == 92)) [
  | true ↦ strip_from is_print text rs
  | false ↦ strip_from is_print (if c == 7 then text else osc) (d ∷ rs)
]

unfoldable pub strip_ansi : (ℕ → Bool) → Text → Text
unfolding strip_from
strip_ansi is_print s = strip_from is_print text s

abbrev pub max_plan_length : ℕ
max_plan_length = 512

-- SetPlan
unfoldable pub set_plan : (ℕ → Bool) → (Text → Text) → Text → Text → Store → Result
unfolding strip_ansi
set_plan is_print trim_space username s db =
    let clean = trim_space (strip_ansi is_print s) in
    if ltb max_plan_length (length clean) then (db, some plan_too_long) else (
      record db {
        users = update_rows (named username) (λ u. record u { plan_text = some clean }) db.users;
      },
      none,
    )

-- ClearPlan
unfoldable pub clear_plan : Text → Store → Store
clear_plan username db = record db {
  users = update_rows (named username) (λ u. record u { plan_text = none }) db.users;
}

-- The text of a column that may be NULL.
abbrev pub or_empty : Option Text → Text
or_empty none = []
or_empty (some s) = s

abbrev pub plan_of : Option User → Option Text
plan_of none = none
plan_of (some u) = some (or_empty u.plan_text)

-- GetPlan; no result is the error of a missing row.
unfoldable pub get_plan : Text → Store → Option Text
get_plan username db = plan_of (find_row (named username) db.users)

named-plan :
    (username : Text) (plan : Option Text) (u : User)
    → named username (record u { plan_text = plan }) ≡ named username u
unfolding named
named-plan username plan u = refl

short_test : (t : Text) → length t ≤ 512 → ltb max_plan_length (length t) ≡ false
short_test t le = ground arith

-- What a terminal is safe to be sent: printable runes, line ends and tabs, and no ESC or DEL.
abbrev pub IsSafe : (ℕ → Bool) → ℕ → Type 0
IsSafe is_print r =
    (((is_print r ≡ true) × (32 ≤ r)) ⊎ ((r ≡ 10) ⊎ (r ≡ 9))) × ((r ≡ 27 → ⊥) × (r ≡ 127 → ⊥))

keeps-IsSafe :
    (is_print : ℕ → Bool) (r : ℕ) → r == 27 ≡ false → keeps is_print r ≡ true → IsSafe is_print r
keeps-IsSafe is_print r e k = (
  elim (ℕ_discrete r 10) [
    | yes l ↦ inr (inl l)
    | no l ↦ elim (ℕ_discrete r 9) [ yes t ↦ inr (inr t) | no t ↦ inl (ground arith, ground arith) ]
  ],
  (ground arith, ground arith),
)

IsSafe-keeps :
    (is_print : ℕ → Bool) (r : ℕ)
    → IsSafe is_print r
    → (r == 27 ≡ false) × (keeps is_print r ≡ true)
IsSafe-keeps is_print r h = (
  ground (arith, h.1),
  elim h.0 [ inl p ↦ rw p.0 (ground (arith, h.1, p.1)) | inr w ↦ ground (arith, h.1, w) ],
)

if_IsSafe :
    (is_print : ℕ → Bool) (r : ℕ) (rest : Text)
    → r == 27 ≡ false
    → All (IsSafe is_print) rest
    → All (IsSafe is_print) (if keeps is_print r then r ∷ rest else rest)
if_IsSafe is_print r rest e h = elim (Bool-cases (keeps is_print r)) [
  | inl k ↦ rw k (keeps-IsSafe is_print r e k, h)
  | inr k ↦ rw k h
]

-- Whatever the text, and even when it ends within an escape sequence, StripANSI leaves only runes
-- that are safe to send to a terminal, from any place of its loops.
pub strip_from-IsSafe :
    (is_print : ℕ → Bool) (place : Place) (s : Text)
    → All (IsSafe is_print) (strip_from is_print place s)
unfolding strip_from
strip_from-IsSafe is_print place [] = tt
strip_from-IsSafe is_print text (r ∷ []) = elim (Bool-cases (r == 27)) [
  | inl e ↦ rw e tt
  | inr e ↦ rw e (if_IsSafe is_print r [] e tt)
]
strip_from-IsSafe is_print text (r ∷ c ∷ rs) = elim (Bool-cases (r == 27)) [
  | inl e ↦ rw (e, All) (strip_from-IsSafe is_print (after_escape c) rs)
  | inr e ↦
      rw (e, All)
        (if_IsSafe is_print r (strip_from is_print text (c ∷ rs)) e
          (strip_from-IsSafe is_print text (c ∷ rs)))
]
strip_from-IsSafe is_print csi (c ∷ rs) =
    strip_from-IsSafe is_print (if is_final c then text else csi) rs
strip_from-IsSafe is_print osc (c ∷ []) = tt
strip_from-IsSafe is_print osc (c ∷ d ∷ rs) = elim (Bool-cases ((c == 27) && (d == 92))) [
  | inl e ↦ rw (e, All) (strip_from-IsSafe is_print text rs)
  | inr e ↦ rw (e, All) (strip_from-IsSafe is_print (if c == 7 then text else osc) (d ∷ rs))
]

strip_safe :
    (is_print : ℕ → Bool) (s : Text) → All (IsSafe is_print) s → strip_from is_print text s ≡ s
unfolding strip_from
strip_safe is_print [] h = refl
strip_safe is_print (r ∷ []) h = let k = IsSafe-keeps is_print r h.0 in rw (k.0, k.1) refl
strip_safe is_print (r ∷ c ∷ rs) h =
    let k = IsSafe-keeps is_print r h.0 in
    let rest = strip_from is_print text (c ∷ rs) in
    ap
      (λ b. elim b as (λ b. Text) [
        | true ↦ strip_from is_print (after_escape c) rs
        | false ↦ if keeps is_print r then r ∷ rest else rest
      ])
      k.0
    ∙ ap (λ b. if b then r ∷ rest else rest) k.1
    ∙ (ap (λ t. r ∷ t) (strip_safe is_print (c ∷ rs) h.1))

-- StripANSI changes nothing exactly in the texts that are safe, and so nothing in its own results.
pub strip_ansi-fixed :
    (is_print : ℕ → Bool) (s : Text)
    → ((strip_ansi is_print s ≡ s) ↔ All (IsSafe is_print) s)
      × (strip_ansi is_print (strip_ansi is_print s) ≡ strip_ansi is_print s)
unfolding strip_ansi
strip_ansi-fixed is_print s =
    let clean = strip_from-IsSafe is_print text s in
    (
      (λ e. subst (λ t. All (IsSafe is_print) t) e clean, strip_safe is_print s),
      strip_safe is_print (strip_from is_print text s) clean,
    )

module _ (is_print : ℕ → Bool) (trim_space : Text → Text) (username : Text) (s : Text)
    (db : Store) where
  -- After SetPlan of an existing account with a text that is at most 512 runes long once it is
  -- stripped and trimmed, GetPlan gives that text.
  pub get_plan-set_plan :
      (u : User)
      → get_user_by_username username db ≡ some u
      → length (trim_space (strip_ansi is_print s)) ≤ max_plan_length
      → (get_plan username (set_plan is_print trim_space username s db).0
          ≡ some (trim_space (strip_ansi is_print s)))
        × ((set_plan is_print trim_space username s db).1 ≡ none)
  unfolding set_plan get_plan get_user_by_username
  get_plan-set_plan u e short =
      let clean = trim_space (strip_ansi is_print s) in
      let row =
        find_row-update_rows (named username) (λ u. record u { plan_text = some clean })
          (named-plan username (some clean)) db.users
        ∙ ap (option_map (λ u. record u { plan_text = some clean })) e in
      rw (short_test clean short) (ap plan_of row, refl)
