-- ===== src/Registry/Decimal.antt =====
-- strconv.FormatUint in base 10, as registry.go and call.go print numbers.
use retro_vax_bbs.Prelude.{
  ℕ, zero, suc, ◌+◌, ◌-◌, ◌*◌, ◌/◌, ◌%◌, ◌<◌, ◌≡◌, refl, ap, sym, ◌∙◌, [], ◌∷◌, ◌++◌, Text, arith,
  ltb, if◌then◌else◌, Bool-cases, inl, inr,
}

decimal : ℕ → ℕ → Text
decimal zero n = []
decimal (suc fuel) n =
    let rest = decimal fuel (n / 10) in
    if ltb n 10 then (48 + n) ∷ [] else rest ++ (48 + n % 10) ∷ []

-- A number has at most as many digits as it counts, and zero has one.
unfoldable pub format_uint : ℕ → Text
unfolding decimal
format_uint n = decimal (suc n) n

value_from : ℕ → Text → ℕ
value_from acc [] = acc
value_from acc (c ∷ cs) = value_from (acc * 10 + (c - 48)) cs

value_from-snoc :
    (acc : ℕ) (cs : Text) (d : ℕ)
    → value_from acc (cs ++ d ∷ []) ≡ value_from acc cs * 10 + (d - 48)
unfolding value_from
value_from-snoc acc [] d = refl
value_from-snoc acc (c ∷ cs) d = value_from-snoc (acc * 10 + (c - 48)) cs d

value-decimal : (fuel n : ℕ) → n < fuel → value_from 0 (decimal fuel n) ≡ n
unfolding decimal value_from
value-decimal zero n h = elim h [ ]
value-decimal (suc fuel) n h = elim (Bool-cases (ltb n 10)) [
  | inl small ↦ rw small (omega arith)
  | inr big ↦ rw big (
      ground (
        arith,
        value_from-snoc 0 (decimal fuel (n / 10)) (48 + n % 10),
        value-decimal fuel (n / 10),
      ))
]

-- Two numbers that print alike are one number.
pub format_uint-injective : (m n : ℕ) → format_uint m ≡ format_uint n → m ≡ n
unfolding format_uint
format_uint-injective m n e =
    sym (value-decimal (suc m) m (omega arith))
    ∙ ap (value_from 0) e
    ∙ value-decimal (suc n) n (omega arith)
