-- ===== src/Phone/Screen/Seen.antt =====
-- internal/phone/app.go: what a received rune does to the viewport of its sender.
use retro_vax_bbs.Prelude.{
  ℕ, ◌≡◌, refl, ap, ◌∙◌, Text, false, Option, none, some, List, [], ◌∷◌, ◌==◌, if◌then◌else◌,
  Bool-cases, inl, inr, arith,
}
use mathlib.Core.Option as Option
use retro_vax_bbs.Phone.Viewport.{ViewportText, append}
use retro_vax_bbs.Phone.Calls.State.{same}
use retro_vax_bbs.Phone.Screen.Model.{change_first}
use retro_vax_bbs.Phone.Screen.Events.{show_rune}
use retro_vax_bbs.Phone.Screen.Coherence.{show_rune-username}

unfoldable pub viewport_of : Text → List ViewportText → Option ViewportText
viewport_of name [] = none
viewport_of name (v ∷ vs) = if same v.username name then some v else viewport_of name vs

-- What a rune does to the viewport that shows it.
unfoldable pub seen : ℕ → ℕ → ViewportText → ViewportText
seen width r v = if r == 7 then v else show_rune width r v

unfoldable pub seen_all : ℕ → List ℕ → ViewportText → ViewportText
seen_all width [] v = v
seen_all width (r ∷ rs) v = seen_all width rs (seen width r v)

pub seen-username : (width r : ℕ) (v : ViewportText) → (seen width r v).username ≡ v.username
unfolding seen
seen-username width r v = ground (arith, show_rune-username width r v)

pub seen_all-username :
    (width : ℕ) (rs : List ℕ) (v : ViewportText) → (seen_all width rs v).username ≡ v.username
unfolding seen_all
seen_all-username width [] v = refl
seen_all-username width (r ∷ rs) v =
    seen_all-username width rs (seen width r v) ∙ seen-username width r v

pub viewport_of-change_first :
    (name : Text) (f : ViewportText → ViewportText) (vs : List ViewportText)
    → ((v : ViewportText) → (f v).username ≡ v.username)
    → viewport_of name (change_first name f vs) ≡ Option.map f (viewport_of name vs)
unfolding viewport_of change_first
viewport_of-change_first name f [] h = refl
viewport_of-change_first name f (v ∷ vs) h = elim (Bool-cases (same v.username name)) [
  | inl e ↦ rw (e, h v, e) refl
  | inr e ↦ rw (e, e) (viewport_of-change_first name f vs h)
]

pub change_first-same :
    (name : Text) (f g : ViewportText → ViewportText) (vs : List ViewportText)
    → ((v : ViewportText) → f v ≡ g v)
    → change_first name f vs ≡ change_first name g vs
unfolding change_first
change_first-same name f g [] h = refl
change_first-same name f g (v ∷ vs) h = elim (Bool-cases (same v.username name)) [
  | inl e ↦ rw e (ap (λ x. x ∷ vs) (h v))
  | inr e ↦ rw e (ap (λ xs. v ∷ xs) (change_first-same name f g vs h))
]

pub change_first-nothing :
    (name : Text) (vs : List ViewportText) → vs ≡ change_first name (λ v. v) vs
unfolding change_first
change_first-nothing name [] = refl
change_first-nothing name (v ∷ vs) = elim (Bool-cases (same v.username name)) [
  | inl e ↦ rw e refl
  | inr e ↦ rw e (ap (λ xs. v ∷ xs) (change_first-nothing name vs))
]

pub seen-text :
    (width r : ℕ) (v : ViewportText)
    → (r == 7) ≡ false
    → (r == 12) ≡ false
    → (r == 21) ≡ false
    → append r width v ≡ seen width r v
unfolding seen show_rune
seen-text width r v a b c = rw (a, b, c) refl
