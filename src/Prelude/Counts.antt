-- ===== src/Prelude/Counts.antt =====
-- How often a number stands in a list: the way in which multisets of handles are compared.
use Prim.Native.Nat.{ℕ, ◌+◌, ◌≤◌}
use mathlib.Core.Path.{◌≡◌}
use mathlib.Core.Logic.{ite}
use mathlib.Core.List.{List, [], ◌∷◌, ◌++◌}
use native.Mathlib.Decide.{ℕ_discrete}
use native.Mathlib.Omega.{arith}

-- 1 where the two are one number, and 0 elsewhere.
unfoldable pub one_at : ℕ → ℕ → ℕ
one_at a b = ite (ℕ_discrete a b) 1 0

abbrev pub count : ℕ → List ℕ → ℕ
count h [] = 0
count h (k ∷ ks) = one_at h k + count h ks

pub count-append : (h : ℕ) (ks ms : List ℕ) → count h (ks ++ ms) ≡ count h ks + count h ms
count-append h [] ms = omega arith
count-append h (k ∷ ks) ms = omega (count-append h ks ms, arith)

pub one_at_self : (a : ℕ) → one_at a a ≡ 1
unfolding one_at
one_at_self a = ground arith

pub one_at_le : (a b : ℕ) → one_at a b ≤ 1
unfolding one_at
one_at_le a b = ground arith
