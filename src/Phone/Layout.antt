-- ===== src/Phone/Layout.antt =====
-- internal/phone/layout.go: the rows that each participant's viewport gets. Terminal sizes and the
-- participant count are natural numbers; the rows that are left may fall below zero.
use retro_vax_bbs.Prelude.{
  ℕ, zero, suc, ◌+◌, ◌*◌, ◌/◌, ◌-◌, ◌≤◌, ◌<◌, ◌≡◌, refl, Bool, true, false, arith, leb, ltb,
  if◌then◌else◌, Bool-cases, inl, inr, ◌⊎◌, ℕ_discrete, dec_le, sym, ◌∙◌,
}
use native.Mathlib.Nat.{le-div_iff_mul-le}
use retro_vax_bbs.Prelude.Int.{ℤ, pos, sub_ℕ, minus, quotient, leb_ℤ, ◌≤ℤ◌, pos_part}

-- headerRows + statusRows + msgRows
abbrev pub chrome_rows : ℕ
chrome_rows = 3

abbrev pub viewport_overhead_rows : ℕ
viewport_overhead_rows = 2

abbrev pub min_viewport_text_rows : ℕ
min_viewport_text_rows = 3

abbrev pub max_viewports : ℕ
max_viewports = 6

pub record Layout : Type 0 where
  pub term_width : ℕ
  pub term_height : ℕ
  pub participants : ℕ
  pub viewport_text_rows : ℤ

-- available / participantCount - viewportOverheadRows
unfoldable pub text_rows : ℤ → ℕ → ℤ
text_rows available count = minus (quotient available count) viewport_overhead_rows

abbrev pub fits : ℤ → ℕ → Bool
fits available count = leb_ℤ (pos min_viewport_text_rows) (text_rows available count)

-- The loop that takes participants out until the others fit.
unfoldable pub shrink : ℤ → ℕ → ℕ
unfolding text_rows
shrink available zero = 0
shrink available (suc zero) = 1
shrink available (suc (suc n)) =
    let fewer = shrink available (suc n) in
    if fits available (suc (suc n)) then suc (suc n) else fewer

-- The first two tests of Compute.
unfoldable pub clamp_count : ℕ → ℕ
clamp_count count =
    let low = if ltb count 1 then 1 else count in
    if ltb max_viewports low then max_viewports else low

-- termHeight - chromeRows - 1
abbrev pub available_rows : ℕ → ℤ
available_rows term_height = sub_ℕ term_height (chrome_rows + 1)

-- Compute
unfoldable pub compute : ℕ → ℕ → ℕ → Layout
unfolding shrink clamp_count text_rows
compute term_width term_height participant_count =
    let available = available_rows term_height in
    let count = shrink available (clamp_count participant_count) in
    let rows = text_rows available count in
    record {
      term_width = term_width;
      term_height = term_height;
      participants = count;
      viewport_text_rows = if fits available count then rows else pos min_viewport_text_rows;
    }

clamp_bounds : (n : ℕ) → (1 ≤ clamp_count n) × (clamp_count n ≤ 6)
unfolding clamp_count
clamp_bounds n = ground arith

-- The loop ends between 1 and its start, at 1 or at a count that fits, and no larger count fits.
shrink_lem :
    (a : ℤ) (n : ℕ)
    → 1 ≤ n
    → (1 ≤ shrink a n)
      × (shrink a n ≤ n)
      × ((shrink a n ≡ 1) ⊎ (fits a (shrink a n) ≡ true))
      × ((m : ℕ) → shrink a n < m → m ≤ n → fits a m ≡ false)
unfolding shrink
shrink_lem a zero le = absurd (omega arith)
shrink_lem a (suc zero) le = (omega arith, omega arith, inl refl, λ m l h. absurd (omega arith))
shrink_lem a (suc (suc n)) le = elim (Bool-cases (fits a (suc (suc n)))) [
  | inl e ↦ rw e (omega arith, omega arith, inr e, λ m l h. absurd (omega arith))
  | inr e ↦
      let ih = shrink_lem a (suc n) (omega arith) in
      rw e (
        ih.0,
        omega (arith, ih.1),
        ih.2,
        λ m l h. elim (ℕ_discrete m (suc (suc n))) [
          | yes p ↦ rw p e
          | no q ↦ ih.3 m l (omega arith)
        ],
      )
]

fits_quotient : (h c : ℕ) → fits (available_rows h) c ≡ leb 5 ((h - 4) / c)
unfolding text_rows
fits_quotient h c = elim (Bool-cases (leb 4 h)) [
  | inl e ↦ rw e (ground arith)
  | inr e ↦ rw e (ground arith)
]

leb→≤ : {a b : ℕ} → leb a b ≡ true → a ≤ b
leb→≤ e = ground arith

≤→leb : {a b : ℕ} → a ≤ b → leb a b ≡ true
≤→leb e = ground arith

-- A count fits exactly if each viewport can have two rows of overhead and three of text.
fits→room : (h c : ℕ) → 1 ≤ c → fits (available_rows h) c ≡ true → c * 5 + 4 ≤ h
fits→room h c le e =
    let share : 5 ≤ (h - 4) / c = leb→≤ (sym (fits_quotient h c) ∙ e) in
    let rows : 5 * c ≤ h - 4 = (le-div_iff_mul-le le).0 share in ground arith

pub room→fits : (h c : ℕ) → 1 ≤ c → c * 5 + 4 ≤ h → fits (available_rows h) c ≡ true
room→fits h c le room =
    let rows : 5 * c ≤ h - 4 = ground arith in
    fits_quotient h c ∙ ≤→leb ((le-div_iff_mul-le le).1 rows)

pub rows_room :
    (h c : ℕ)
    → 1 ≤ c
    → fits (available_rows h) c ≡ true
    → c * (pos_part (text_rows (available_rows h) c) + 2) + 4 ≤ h
unfolding text_rows
rows_room h c le e = grind arith

clash : {b : Bool} → b ≡ true → b ≡ false → ⊥
clash e f = cc

at_least_three :
    (a : ℤ) (c : ℕ)
    → pos min_viewport_text_rows ≤ℤ (if fits a c then text_rows a c else pos min_viewport_text_rows)
at_least_three a c = elim (Bool-cases (fits a c)) [
  | inl e ↦ rw e (leb→≤ e)
  | inr e ↦ rw e (omega arith)
]

module _ (w h n : ℕ) where
  -- For every terminal and every number of participants, Compute shows between one and six viewports,
  -- at most as many as the clamped number, each with at least three rows of text; and it shows one
  -- viewport, or all of them with their overhead and the chrome fit the terminal's height.
  pub compute-fits :
      (1 ≤ (compute w h n).participants)
      × ((compute w h n).participants ≤ clamp_count n)
      × (clamp_count n ≤ max_viewports)
      × (pos min_viewport_text_rows ≤ℤ (compute w h n).viewport_text_rows)
      × (((compute w h n).participants ≡ 1)
          ⊎ ((compute w h n).participants * (pos_part (compute w h n).viewport_text_rows + 2) + 4
              ≤ h))
  unfolding compute
  compute-fits =
      let loop = shrink_lem (available_rows h) (clamp_count n) (clamp_bounds n).0 in
      (
        loop.0,
        loop.1,
        (clamp_bounds n).1,
        at_least_three (available_rows h) (shrink (available_rows h) (clamp_count n)),
        elim loop.2 [
          | inl one ↦ inl one
          | inr e ↦ inr (rw e (rows_room h (shrink (available_rows h) (clamp_count n)) loop.0 e))
        ],
      )

  -- A number of participants above the one that Compute shows, and at most the clamped one, would not
  -- fit the terminal's height with three rows of text and two of overhead for each viewport.
  pub compute-maximal :
      (m : ℕ) → (compute w h n).participants < m → m ≤ clamp_count n → h < m * 5 + 4
  unfolding compute
  compute-maximal m more le =
      let loop = shrink_lem (available_rows h) (clamp_count n) (clamp_bounds n).0 in
      elim (dec_le (m * 5 + 4) h) [
        | yes room ↦ absurd (clash (room→fits h m (omega (arith, loop.0)) room) (loop.3 m more le))
        | no short ↦ omega arith
      ]
