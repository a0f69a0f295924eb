-- ===== src/Phone/Screen/Mirror.antt =====
-- internal/phone/app.go: a key typed in a conversation, and the characters that the others receive for it.
use retro_vax_bbs.Prelude.{
  ℕ, ◌≡◌, refl, sym, ap, ◌∙◌, Text, false, Option, none, some, List, [], ◌∷◌, ◌++◌, ◌==◌, ◌>>=◌,
  Bool-cases, inl, inr,
}
use mathlib.Core.Option as Option
use retro_vax_bbs.Phone.Viewport.{ViewportText, append}
use retro_vax_bbs.Phone.Calls.State.{Calls}
use retro_vax_bbs.Phone.Calls.Inviting.{broadcast_char}
use retro_vax_bbs.Phone.Calls.Invariant.{Inv}
use retro_vax_bbs.Phone.Calls.Histories.{Stays-some}
use retro_vax_bbs.Phone.Calls.Keeps.Inviting.{broadcast_char-Stays}
use retro_vax_bbs.Phone.Screen.Model.{
  Model, Turn, change_first, clear_viewport, clear_line, quiet, turn, Effect, wait_for_char,
  ring_bell,
}
use retro_vax_bbs.Phone.Screen.Events
use retro_vax_bbs.Phone.Screen.Events.{show_rune}
use retro_vax_bbs.Phone.Screen.Keys.{type_rune, handle_conv_key}
use retro_vax_bbs.Phone.Screen.Commands.{Key}
use retro_vax_bbs.Phone.Screen.Coherence.{Lands}
use retro_vax_bbs.Phone.Screen.Seen.{
  viewport_of, seen, seen_all, seen-username, seen_all-username, viewport_of-change_first,
  change_first-same, change_first-nothing, seen-text,
}

-- The runes that a key sends, in order.
unfoldable pub sent : Key → List ℕ
sent Key.ctrl_g = 7 ∷ []
sent Key.ctrl_l = 12 ∷ []
sent Key.ctrl_u = 21 ∷ []
sent Key.tab = 32 ∷ 32 ∷ 32 ∷ 32 ∷ 32 ∷ []
sent Key.enter = 13 ∷ []
sent Key.backspace = 8 ∷ []
sent Key.space = 32 ∷ []
sent (Key.runes rs) = rs
sent Key.ctrl_z = []
sent Key.ctrl_c = []
sent Key.escape = []
sent Key.other = []

-- A text key brings one rune; the terminal sends the bell and the two clearing characters as keys of
-- their own, never as text.
unfoldable pub IsTyped : Key → Type 0
IsTyped (Key.runes []) = ⊥
IsTyped (Key.runes (r ∷ [])) = (r == 7) ≡ false × ((r == 12) ≡ false) × ((r == 21) ≡ false)
IsTyped (Key.runes (r ∷ r' ∷ rs)) = ⊥
IsTyped k = Unit

unfoldable pub broadcast_all : Text → Text → List ℕ → Calls → Option Calls
broadcast_all id sender [] s = some s
broadcast_all id sender (r ∷ rs) s = broadcast_char id sender r s >>= broadcast_all id sender rs

-- A screen that receives characters from one sender, in order.
unfoldable pub receive_all : Text → List ℕ → Model → Calls → Option Turn
receive_all sender [] m s = quiet m s
receive_all sender (r ∷ rs) m s =
    Events.char_arrived r sender m s >>= λ t. receive_all sender rs t.screen t.table

-- The turn of a typed key: what the screen shows of it is what it sent.
Echoes : List ℕ → Model → Calls → Model → Calls → Type 0
Echoes rs m s m' s' =
    (m'.viewports ≡ change_first m.username (seen_all m.width rs) m.viewports)
    × (broadcast_all m.call_id m.username rs s ≡ some s')

sends :
    (id u : Text) (r : ℕ) (rs : List ℕ) (s s' : Calls) {o : Option Calls}
    → broadcast_char id u r s ≡ some s'
    → broadcast_all id u rs s' ≡ o
    → broadcast_all id u (r ∷ rs) s ≡ o
unfolding broadcast_all
sends id u r rs s s' e h = ap (λ x. x >>= broadcast_all id u rs) e ∙ h

one-Echoes :
    (r : ℕ) (f : ViewportText → ViewportText) (m : Model) (s : Calls)
    → Inv s
    → ((v : ViewportText) → f v ≡ seen m.width r v)
    → Lands (Echoes (r ∷ []) m s) (
        broadcast_char m.call_id m.username r s >>= λ s'.
        quiet (record m { viewports = change_first m.username f m.viewports }) s')
unfolding Echoes broadcast_all seen_all
one-Echoes r f m s v h =
    let b =
      Stays-some (broadcast_char m.call_id m.username r s)
        (broadcast_char-Stays m.call_id m.username r s v) in
    rw b.1 (
      change_first-same m.username f (seen m.width r) m.viewports h,
      sends m.call_id m.username r [] s b.0 b.1 refl,
    )

none-Echoes : (m : Model) (s : Calls) → Echoes [] m s m s
unfolding Echoes broadcast_all seen_all
none-Echoes m s = (change_first-nothing m.username m.viewports, refl)

handle_conv_key-Echoes :
    (k : Key) (m : Model) (s : Calls)
    → Inv s
    → IsTyped k
    → Lands (Echoes (sent k) m s) (handle_conv_key k m s)
unfolding handle_conv_key sent IsTyped type_rune Echoes broadcast_all seen_all seen show_rune
    clear_viewport clear_line
handle_conv_key-Echoes Key.ctrl_g m s v t =
    let b =
      Stays-some (broadcast_char m.call_id m.username 7 s)
        (broadcast_char-Stays m.call_id m.username 7 s v) in
    rw b.1
      (change_first-nothing m.username m.viewports, sends m.call_id m.username 7 [] s b.0 b.1 refl)
handle_conv_key-Echoes Key.tab m s v t =
    let space = λ (x : Calls). broadcast_char m.call_id m.username 32 x in
    let stays = λ (x : Calls) (w : Inv x).
      Stays-some (space x) (broadcast_char-Stays m.call_id m.username 32 x w) in
    let b1 = stays s v in
    let b2 = stays b1.0 b1.2 in
    let b3 = stays b2.0 b2.2 in
    let b4 = stays b3.0 b3.2 in
    let b5 = stays b4.0 b4.2 in
    rw (b1.1, b2.1, b3.1, b4.1, b5.1)
      (
        refl,
        sends m.call_id m.username 32 (32 ∷ 32 ∷ 32 ∷ 32 ∷ []) s b1.0 b1.1 (
            sends m.call_id m.username 32 (32 ∷ 32 ∷ 32 ∷ []) b1.0 b2.0 b2.1 (
              sends m.call_id m.username 32 (32 ∷ 32 ∷ []) b2.0 b3.0 b3.1 (
                sends m.call_id m.username 32 (32 ∷ []) b3.0 b4.0 b4.1
                  (sends m.call_id m.username 32 [] b4.0 b5.0 b5.1 refl)))),
      )
handle_conv_key-Echoes Key.ctrl_l m s v t = one-Echoes 12 clear_viewport m s v (λ x. refl)
handle_conv_key-Echoes Key.ctrl_u m s v t = one-Echoes 21 clear_line m s v (λ x. refl)
handle_conv_key-Echoes Key.enter m s v t = one-Echoes 13 (append 13 m.width) m s v (λ x. refl)
handle_conv_key-Echoes Key.backspace m s v t = one-Echoes 8 (append 8 m.width) m s v (λ x. refl)
handle_conv_key-Echoes Key.space m s v t = one-Echoes 32 (append 32 m.width) m s v (λ x. refl)
handle_conv_key-Echoes (Key.runes []) m s v t = absurd t
handle_conv_key-Echoes (Key.runes (r ∷ [])) m s v t =
    one-Echoes r (append r m.width) m s v (λ x. seen-text m.width r x t.0 t.1 t.2)
handle_conv_key-Echoes (Key.runes (r ∷ r' ∷ rs)) m s v t = absurd t
handle_conv_key-Echoes Key.ctrl_z m s v t = none-Echoes m s
handle_conv_key-Echoes Key.ctrl_c m s v t = none-Echoes m s
handle_conv_key-Echoes Key.escape m s v t = none-Echoes m s
handle_conv_key-Echoes Key.other m s v t = none-Echoes m s

map-map {ℓ} :
    {A : Type ℓ} (f g : A → A) (o : Option A)
    → Option.map f (Option.map g o) ≡ Option.map (λ x. f (g x)) o
map-map f g none = refl
map-map f g (some x) = refl

map-nothing {ℓ} : {A : Type ℓ} (o : Option A) → o ≡ Option.map (λ x. x) o
map-nothing none = refl
map-nothing (some x) = refl

Lands-weaken :
    (P Q : Model → Calls → Type 0) (o : Option Turn)
    → ((m : Model) (s : Calls) → P m s → Q m s)
    → Lands P o
    → Lands Q o
Lands-weaken P Q none f h = h
Lands-weaken P Q (some x) f h = f x.screen x.table h

arrived :
    (r : ℕ) (sender : Text) (n : Model) (s : Calls)
    → (fx : List Effect) × (Events.char_arrived r sender n s
        ≡ turn (record n { viewports = change_first sender (seen n.width r) n.viewports }) s fx)
unfolding Events.char_arrived seen
arrived r sender n s = elim (Bool-cases (r == 7)) [
  | inl e ↦
      let same_view =
        change_first-nothing sender n.viewports
        ∙ change_first-same sender (λ v. v) (seen n.width r) n.viewports (λ v. rw e refl) in
      (
        wait_for_char n.my_chars ++ ring_bell n,
        rw e (
            ap
              (λ vs. turn (record n { viewports = vs }) s (wait_for_char n.my_chars ++ ring_bell n))
              same_view),
      )
  | inr e ↦
      let same_view =
        change_first-same sender (show_rune n.width r) (seen n.width r) n.viewports
          (λ v. rw e refl) in
      (
        wait_for_char n.my_chars,
        rw e (ap (λ vs. turn (record n { viewports = vs }) s (wait_for_char n.my_chars)) same_view),
      )
]

-- A screen shows in a sender's viewport what some runes make of what was there.
Showing : Text → List ℕ → Model → Model → Calls → Type 0
Showing sender rs n n' s' =
    viewport_of sender n'.viewports
    ≡ Option.map (seen_all n.width rs) (viewport_of sender n.viewports)

receive_all-Showing :
    (sender : Text) (rs : List ℕ) (n : Model) (s : Calls)
    → Lands (Showing sender rs n) (receive_all sender rs n s)
unfolding receive_all seen_all Showing
receive_all-Showing sender [] n s = map-nothing (viewport_of sender n.viewports)
receive_all-Showing sender (r ∷ rs) n s =
    let n' : Model = record n { viewports = change_first sender (seen n.width r) n.viewports } in
    let a = arrived r sender n s in
    rw a.1 (
      Lands-weaken (Showing sender rs n') (Showing sender (r ∷ rs) n) (receive_all sender rs n' s)
        (λ n2 s2 h.
          h
          ∙ ap (Option.map (seen_all n.width rs)) (
              viewport_of-change_first sender (seen n.width r) n.viewports
                (seen-username n.width r))
          ∙ map-map (seen_all n.width rs) (seen n.width r) (viewport_of sender n.viewports))
        (receive_all-Showing sender rs n' s))

-- Over a sound table, a key typed in a conversation, of text a single rune that is neither the bell nor
-- a clearing character, panics nowhere and sends its runes, in order. A screen of the same width on which
-- the typist's viewport looked as on the typist's own shows after these runes the same text and the same
-- line being typed there as the typist's own screen. A paste of several runes in one key is not covered.
pub handle_conv_key-mirrored :
    (k : Key) (m n : Model) (s t : Calls)
    → Inv s
    → IsTyped k
    → n.width ≡ m.width
    → viewport_of m.username n.viewports ≡ viewport_of m.username m.viewports
    → Lands
        (λ m' s'.
          (broadcast_all m.call_id m.username (sent k) s ≡ some s')
          × Lands
              (λ n' t'. viewport_of m.username n'.viewports ≡ viewport_of m.username m'.viewports)
              (receive_all m.username (sent k) n t))
        (handle_conv_key k m s)
unfolding Echoes Showing
handle_conv_key-mirrored k m n s t v typed wide alike =
    Lands-weaken (Echoes (sent k) m s) _ (handle_conv_key k m s)
      (λ m' s' h. (
        h.1,
        Lands-weaken (Showing m.username (sent k) n) _ (receive_all m.username (sent k) n t)
            (λ n' t' g.
              g
              ∙ ap (λ w. Option.map (seen_all w (sent k)) (viewport_of m.username n.viewports)) wide
              ∙ ap (Option.map (seen_all m.width (sent k))) alike
              ∙ sym (
                  viewport_of-change_first m.username (seen_all m.width (sent k)) m.viewports
                    (seen_all-username m.width (sent k)))
              ∙ ap (viewport_of m.username) (sym h.0))
            (receive_all-Showing m.username (sent k) n t),
      ))
      (handle_conv_key-Echoes k m s v typed)
