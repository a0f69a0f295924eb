-- ===== src/Phone/Screen/Coherence.antt =====
-- internal/phone/app.go: when the fields of a screen agree with each other, and what the helpers that
-- change its viewports do to their names.
use retro_vax_bbs.Prelude.{
  ℕ, ◌≡◌, refl, ap, Text, Bool, true, false, Option, none, some, List, [], ◌∷◌, ◌++◌, map, ◌≢◌,
  if◌then◌else◌, Bool-cases, inl, inr, ◌>>=◌, text_discrete, arith, if_neg,
}
use retro_vax_bbs.Phone.Viewport.{ViewportText, blank, append, commit}
use retro_vax_bbs.Phone.Calls.State.{CallState, idle, pending, active, Calls, same}
use retro_vax_bbs.Phone.Calls.Invariant.{Inv, Stays}
use retro_vax_bbs.Phone.Screen.Model.{
  Model, Turn, ringing_text, change_first, clear_viewport, clear_line,
}
use retro_vax_bbs.Phone.Screen.Events.{show_rune, viewports_without, names_without}

-- What the mode fixes of the call id, of the others' names, of the channel and of the status line; of the
-- call id only the idle mode fixes anything.
abbrev pub Mode : CallState → Text → List Text → Option ℕ → Text → Type 0
Mode idle id others chars status = (id ≡ []) × (others ≡ []) × (chars ≡ none) × (status ≡ [])
Mode pending id others chars status =
    (callee : Text) × (others ≡ callee ∷ [])
    × (status ≡ ringing_text callee)
    × ((k : ℕ) × (chars ≡ some k))
Mode active id others chars status = (status ≡ []) × ((k : ℕ) × (chars ≡ some k))

abbrev pub names : List ViewportText → List Text
names vs = map (λ (v : ViewportText). v.username) vs

-- The first viewport is the user's own, and each name that is listed has one, in order.
pub record Coherent (m : Model) : Type 0 where
  pub own_first : names m.viewports ≡ m.username ∷ m.calls_with
  pub mode : Mode m.state m.call_id m.calls_with m.my_chars m.status

-- What holds of the turn that a handler returns; a panic is not among them.
abbrev pub Lands : (Model → Calls → Type 0) → Option Turn → Type 0
Lands P none = ⊥
Lands P (some t) = P t.screen t.table

pub Lands-if :
    (P : Model → Calls → Type 0) (b : Bool) (x y : Option Turn)
    → Lands P x
    → Lands P y
    → Lands P (if b then x else y)
Lands-if P true x y h k = h
Lands-if P false x y h k = k

pub Lands-then :
    (P : Model → Calls → Type 0) (o : Option Calls) (f : Calls → Option Turn)
    → Stays o
    → ((s : Calls) → Inv s → Lands P (f s))
    → Lands P (o >>= f)
Lands-then P (some s) f h k = k s h
Lands-then P none f h k = absurd h

pub append-username : (r width : ℕ) (v : ViewportText) → (append r width v).username ≡ v.username
unfolding append commit
append-username r width v = ground arith

pub show_rune-username :
    (width r : ℕ) (v : ViewportText) → (show_rune width r v).username ≡ v.username
unfolding show_rune clear_viewport clear_line
show_rune-username width r v = ground (arith, append-username r width v)

pub names-change_first :
    (name : Text) (f : ViewportText → ViewportText) (vs : List ViewportText)
    → ((v : ViewportText) → (f v).username ≡ v.username)
    → names (change_first name f vs) ≡ names vs
unfolding change_first
names-change_first name f [] h = refl
names-change_first name f (v ∷ vs) h = elim (Bool-cases (same v.username name)) [
  | inl e ↦ rw e (ap (λ n. n ∷ names vs) (h v))
  | inr e ↦ rw e (ap (λ ns. v.username ∷ ns) (names-change_first name f vs h))
]

pub names-blank : (others : List Text) → names (map blank others) ≡ others
names-blank [] = refl
names-blank (u ∷ us) = ap (λ ns. u ∷ ns) (names-blank us)

pub names-snoc :
    (vs : List ViewportText) (u : Text) → names (vs ++ blank u ∷ []) ≡ names vs ++ u ∷ []
names-snoc [] u = refl
names-snoc (v ∷ vs) u = ap (λ ns. v.username ∷ ns) (names-snoc vs u)

pub names-viewports_without :
    (user : Text) (vs : List ViewportText)
    → names (viewports_without user vs) ≡ names_without user (names vs)
unfolding viewports_without names_without
names-viewports_without user [] = refl
names-viewports_without user (v ∷ vs) = elim (Bool-cases (same v.username user)) [
  | inl e ↦ rw e (names-viewports_without user vs)
  | inr e ↦ rw e (ap (λ ns. v.username ∷ ns) (names-viewports_without user vs))
]

-- The user's own name stays when another one's goes.
pub names_without-own :
    (user own : Text) (us : List Text)
    → own ≢ user
    → names_without user (own ∷ us) ≡ own ∷ names_without user us
unfolding names_without
names_without-own user own us differ = rw (if_neg (text_discrete own user) differ true false) refl
