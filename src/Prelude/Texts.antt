-- ===== src/Prelude/Texts.antt =====
-- Texts as lists of code points, with a decision of equality; literals go through `codes`.
use Prim.Native.Nat.{ℕ}
use Prim.Native.Char.{code}
use Prim.Native.String.{String}
use mathlib.Core.Path.{◌≡◌, refl, ap₂}
use mathlib.Core.List.{List, [], ◌∷◌}
use native.Mathlib.Decide.{ℕ_discrete}

abbrev pub Text : Type 0
Text = List ℕ

abbrev pub codes : String → List ℕ
codes String.[] = []
codes (String.◌∷◌ c s) = code c ∷ codes s

cons_dec :
    {x y : ℕ} {xs ys : List ℕ}
    → Dec (x ≡ y)
    → Dec (xs ≡ ys)
    → Dec (◌≡◌ {A = List ℕ} (x ∷ xs) (y ∷ ys))
cons_dec (yes p) (yes q) = yes (ap₂ ◌∷◌ p q)
cons_dec (yes p) (no n) = no (λ e. n (cc))
cons_dec (no n) d = no (λ e. n (cc))

unfoldable pub text_discrete : Discrete (List ℕ)
unfolding ℕ_discrete cons_dec
text_discrete [] [] = yes refl
text_discrete [] (y ∷ ys) = no (λ e. cc)
text_discrete (x ∷ xs) [] = no (λ e. cc)
text_discrete (x ∷ xs) (y ∷ ys) = cons_dec (ℕ_discrete x y) (text_discrete xs ys)
