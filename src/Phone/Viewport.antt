-- ===== src/Phone/Viewport.antt =====
-- internal/phone/layout.go: the text of one participant's viewport. A line is the list of its runes.
use retro_vax_bbs.Prelude.{
  ℕ, zero, suc, ◌+◌, ◌-◌, ◌≤◌, ◌<◌, ◌≡◌, refl, sym, ap, ◌∙◌, Bool, false, ◌||◌, List, [], ◌∷◌, ◌++◌,
  length, drop, replicate, All, arith, leb, ltb, ◌==◌, if◌then◌else◌, Bool-cases, inl, inr, Text,
  length-append, length-drop, length-replicate,
}
use retro_vax_bbs.Prelude.Int.{ℤ, pos, sub_ℕ}
use mathlib.Core.List.{append_assoc, append-nil, flatten}

pub record ViewportText : Type 0 where
  pub username : Text
  pub lines : List Text
  pub current : Text

abbrev pub blank : Text → ViewportText
blank username = record { username = username; lines = []; current = [] }

-- runes[:len(runes)-1]
unfoldable pub drop_last : Text → Text
drop_last [] = []
drop_last (r ∷ []) = []
drop_last (r ∷ s ∷ rs) = r ∷ drop_last (s ∷ rs)

unfoldable pub commit : Text → ViewportText → ViewportText
commit line v = record v { lines = v.lines ++ (line ∷ []); current = [] }

abbrev pub is_newline : ℕ → Bool
is_newline r = (r == 13) || (r == 10)

abbrev pub is_erase : ℕ → Bool
is_erase r = (r == 8) || (r == 127)

-- Append
unfoldable pub append : ℕ → ℕ → ViewportText → ViewportText
unfolding drop_last commit
append r width v =
    if is_newline r
    then commit v.current v
    else if is_erase r
    then record v { current = drop_last v.current }
    else if leb width (length (v.current ++ (r ∷ [])) + 2)
    then commit (v.current ++ (r ∷ [])) v
    else record v { current = v.current ++ (r ∷ []) }

-- DisplayLines: the rows, and the row of the cursor.
unfoldable pub display_lines : ℕ → ViewportText → List Text × ℤ
display_lines text_rows v =
    let whole = v.lines ++ (v.current ∷ []) in
    let shown =
      if ltb text_rows (length whole) then drop (length whole - text_rows) whole else whole in
    (shown ++ replicate (text_rows - length shown) [], sub_ℕ (length shown) 1)

-- What a participant types, rune by rune.
unfoldable pub feed : ℕ → List ℕ → ViewportText → ViewportText
feed width [] v = v
feed width (r ∷ rs) v = feed width rs (append r width v)

length-drop_last : (t : Text) → length (drop_last t) ≤ length t
unfolding drop_last
length-drop_last [] = omega arith
length-drop_last (r ∷ []) = omega arith
length-drop_last (r ∷ s ∷ rs) = omega (arith, length-drop_last (s ∷ rs))

-- Every line and the line being typed leave the margin free.
abbrev pub Wrapped : ℕ → ViewportText → Type 0
Wrapped width v = (length v.current + 3 ≤ width) × All (λ l. length l + 2 ≤ width) v.lines

All-append {ℓ κ} :
    {A : Type ℓ} (P : A → Type κ) (xs ys : List A) → All P xs → All P ys → All P (xs ++ ys)
All-append P [] ys h k = k
All-append P (x ∷ xs) ys h k = (h.0, All-append P xs ys h.1 k)

commit-Wrapped :
    (width : ℕ) (line : Text) (v : ViewportText)
    → length line + 2 ≤ width
    → 3 ≤ width
    → Wrapped width v
    → Wrapped width (commit line v)
unfolding commit
commit-Wrapped width line v short le w =
    (omega arith, All-append (λ l. length l + 2 ≤ width) v.lines (line ∷ []) w.1 (short, tt))

append-Wrapped :
    (r width : ℕ) (v : ViewportText)
    → 3 ≤ width
    → Wrapped width v
    → Wrapped width (append r width v)
unfolding append
append-Wrapped r width v le w = elim (Bool-cases (is_newline r)) [
  | inl e ↦ rw e (commit-Wrapped width v.current v (omega (arith, w.0)) le w)
  | inr e ↦ elim (Bool-cases (is_erase r)) [
    | inl d ↦ rw (e, d) (omega (arith, w.0, length-drop_last v.current), w.1)
    | inr d ↦ elim (Bool-cases (leb width (length (v.current ++ (r ∷ [])) + 2))) [
      | inl l ↦
          rw (e, d, l)
            (commit-Wrapped width (v.current ++ (r ∷ [])) v
              (omega (arith, w.0, length-append v.current (r ∷ []))) le w)
      | inr l ↦ rw (e, d, l) (ground (arith, w.0), w.1)
    ]
  ]
]

-- In a terminal of at least three columns, whatever runes are typed into a viewport of which each line
-- leaves two columns free and the line being typed leaves three, they all do so afterwards.
pub feed-Wrapped :
    (width : ℕ) (rs : List ℕ) (v : ViewportText)
    → 3 ≤ width
    → Wrapped width v
    → Wrapped width (feed width rs v)
unfolding feed
feed-Wrapped width [] v le w = w
feed-Wrapped width (r ∷ rs) v le w =
    feed-Wrapped width rs (append r width v) le (append-Wrapped r width v le w)

-- All the text of a viewport, without its line ends.
abbrev pub content : ViewportText → Text
content v = flatten v.lines ++ v.current

-- A rune that Append shows.
abbrev pub IsPlain : ℕ → Type 0
IsPlain r = (is_newline r ≡ false) × (is_erase r ≡ false)

flatten-append : (xs ys : List Text) → flatten (xs ++ ys) ≡ flatten xs ++ flatten ys
unfolding flatten
flatten-append [] ys = refl
flatten-append (x ∷ xs) ys =
    ap (λ t. x ++ t) (flatten-append xs ys) ∙ sym (append_assoc x (flatten xs) (flatten ys))

commit-content :
    (line : Text) (v : ViewportText) → content (commit line v) ≡ flatten v.lines ++ line
unfolding commit flatten
commit-content line v =
    append-nil (flatten (v.lines ++ (line ∷ [])))
    ∙ flatten-append v.lines (line ∷ [])
    ∙ ap (λ t. flatten v.lines ++ t) (append-nil line)

append-content :
    (r width : ℕ) (v : ViewportText)
    → IsPlain r
    → content (append r width v) ≡ content v ++ (r ∷ [])
unfolding append
append-content r width v p = elim (Bool-cases (leb width (length (v.current ++ (r ∷ [])) + 2))) [
  | inl l ↦
      rw (p.0, p.1, l)
        (commit-content (v.current ++ (r ∷ [])) v
          ∙ sym (append_assoc (flatten v.lines) v.current (r ∷ [])))
  | inr l ↦ rw (p.0, p.1, l) (sym (append_assoc (flatten v.lines) v.current (r ∷ [])))
]

-- The soft wrap loses and reorders nothing: after runes that are no line end and no erase key, the
-- viewport's text is the text before followed by those runes, at every width.
pub feed-content :
    (width : ℕ) (rs : List ℕ) (v : ViewportText)
    → All IsPlain rs
    → content (feed width rs v) ≡ content v ++ rs
unfolding feed
feed-content width [] v h = sym (append-nil (content v))
feed-content width (r ∷ rs) v h =
    feed-content width rs (append r width v) h.1
    ∙ ap (λ t. t ++ rs) (append-content r width v h.0)
    ∙ append_assoc (content v) (r ∷ []) rs

drop-append_at :
    (xs : List Text) (y : Text) (n : ℕ)
    → n ≤ length xs
    → drop n (xs ++ (y ∷ [])) ≡ drop n xs ++ (y ∷ [])
drop-append_at xs y zero le = refl
drop-append_at [] y (suc n) le = absurd (omega (arith, le))
drop-append_at (x ∷ xs) y (suc n) le = drop-append_at xs y n (omega (arith, le))

drop-prefix : (xs ys : List Text) → drop (length xs) (xs ++ ys) ≡ ys
drop-prefix [] ys = refl
drop-prefix (x ∷ xs) ys = drop-prefix xs ys

-- Rows that end in the line being typed, with the padding below.
abbrev pub Shows : ℕ → Text → List Text × ℤ → Type 0
Shows rows current d =
    (k : ℕ) × (d.1 ≡ pos k)
    × (k < rows)
    × (length d.0 ≡ rows)
    × (drop k d.0 ≡ current ∷ replicate (rows - suc k) [])

length-snoc : (xs : List Text) (y : Text) → length (xs ++ (y ∷ [])) ≡ suc (length xs)
length-snoc xs y = omega (arith, length-append xs (y ∷ []))

padded :
    (rows : ℕ) (xs : List Text) (y : Text)
    → suc (length xs) ≤ rows
    → Shows rows y (
      (xs ++ (y ∷ [])) ++ replicate (rows - length (xs ++ (y ∷ []))) [],
      sub_ℕ (length (xs ++ (y ∷ []))) 1,
    )
padded rows xs y le =
    let pad = replicate {A = Text} (rows - suc (length xs)) [] in
    rw (length-snoc xs y, append_assoc xs (y ∷ []) pad)
      (
        length xs,
        ground arith,
        omega (arith, le),
        omega (
          arith,
          le,
          length-append xs (y ∷ pad),
          length-replicate {A = Text} (rows - suc (length xs)) [],
        ),
        drop-prefix xs (y ∷ pad),
      )

-- DisplayLines on at least one row gives exactly that many rows, with the cursor's row among them;
-- the cursor's row shows the line being typed, and all the rows below it are empty.
pub display_lines_lem :
    (rows : ℕ) (v : ViewportText) → 1 ≤ rows → Shows rows v.current (display_lines rows v)
unfolding display_lines
display_lines_lem rows v le =
    let whole = length-snoc v.lines v.current in
    elim (Bool-cases (ltb rows (length (v.lines ++ (v.current ∷ []))))) [
      | inl e ↦
          let cut : length (v.lines ++ (v.current ∷ [])) - rows ≤ length v.lines =
            omega (arith, whole, le) in
          rw (e, drop-append_at v.lines v.current (length (v.lines ++ (v.current ∷ [])) - rows) cut)
            (padded rows (drop (length (v.lines ++ (v.current ∷ [])) - rows) v.lines) v.current (
              ground
                (arith, length-drop (length (v.lines ++ (v.current ∷ [])) - rows) v.lines, whole)))
      | inr e ↦ rw e (padded rows v.lines v.current (ground (arith, whole)))
    ]
