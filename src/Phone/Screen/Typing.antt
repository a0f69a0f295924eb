-- ===== src/Phone/Screen/Typing.antt =====
-- internal/phone/app.go: what the help text and the keys of a conversation leave of a coherent screen
-- over a sound call table.
use retro_vax_bbs.Prelude.{ℕ, ◌≡◌, refl, Text, List, [], ◌∷◌, ◌>>=◌, ◌∙◌}
use retro_vax_bbs.Phone.Viewport.{ViewportText, append}
use retro_vax_bbs.Phone.Calls.State.{Calls}
use retro_vax_bbs.Phone.Calls.Inviting.{broadcast_char}
use retro_vax_bbs.Phone.Calls.Invariant.{Inv}
use retro_vax_bbs.Phone.Calls.Keeps.Inviting.{broadcast_char-Stays}
use retro_vax_bbs.Phone.Screen.Model.{Model, quiet, change_first, clear_viewport, clear_line}
use retro_vax_bbs.Phone.Screen.Keys.{type_rune, only_rune, handle_conv_key, end_help}
use retro_vax_bbs.Phone.Screen.Commands.{Key, append_all, append_lines, help_text, show_help}
use retro_vax_bbs.Phone.Screen.Coherence.{Coherent, Lands, Lands-then, append-username}
use retro_vax_bbs.Phone.Screen.Receiving.{Good, change_first-Coherent}

pub append_all-username :
    (width : ℕ) (rs : List ℕ) (v : ViewportText) → (append_all width rs v).username ≡ v.username
unfolding append_all
append_all-username width [] v = refl
append_all-username width (r ∷ rs) v =
    append_all-username width rs (append r width v) ∙ append-username r width v

pub append_lines-username :
    (width : ℕ) (ls : List Text) (v : ViewportText)
    → (append_lines width ls v).username ≡ v.username
unfolding append_lines
append_lines-username width [] v = refl
append_lines-username width (l ∷ ls) v =
    append_lines-username width ls (append 13 width (append_all width l v))
    ∙ append-username 13 width (append_all width l v)
    ∙ append_all-username width l v

pub show_help-Coherent : (m : Model) → Coherent m → Coherent (show_help m)
unfolding show_help clear_viewport
show_help-Coherent m c =
    let d =
      change_first-Coherent m.username (λ v. append_lines m.width help_text (clear_viewport v)) m
        (λ v. append_lines-username m.width help_text (clear_viewport v)) c in
    record { own_first = d.own_first; mode = d.mode }

pub end_help-Coherent : (m : Model) → Coherent m → Coherent (end_help m)
unfolding end_help clear_viewport
end_help-Coherent m c =
    let d = change_first-Coherent m.username clear_viewport m (λ v. refl) c in
    record { own_first = d.own_first; mode = d.mode }

-- What is sent is shown in the own viewport.
shown-Good :
    (r : ℕ) (f : ViewportText → ViewportText) (m : Model) (s : Calls)
    → ((v : ViewportText) → (f v).username ≡ v.username)
    → Good m s
    → Lands Good (
        broadcast_char m.call_id m.username r s >>= λ s'.
        quiet (record m { viewports = change_first m.username f m.viewports }) s')
shown-Good r f m s keeps g =
    Lands-then Good (broadcast_char m.call_id m.username r s) _
      (broadcast_char-Stays m.call_id m.username r s g.0)
      (λ s' v. (v, change_first-Coherent m.username f m keeps g.1))

type_rune-Good : (r : ℕ) (m : Model) (s : Calls) → Good m s → Lands Good (type_rune r m s)
unfolding type_rune
type_rune-Good r m s g = shown-Good r (append r m.width) m s (append-username r m.width) g

spaces-username :
    (w : ℕ) (v : ViewportText)
    → (append 32 w (append 32 w (append 32 w (append 32 w (append 32 w v))))).username ≡ v.username
unfolding append_all
spaces-username w v = append_all-username w (32 ∷ 32 ∷ 32 ∷ 32 ∷ 32 ∷ []) v

pub handle_conv_key-Good :
    (k : Key) (m : Model) (s : Calls) → Good m s → Lands Good (handle_conv_key k m s)
unfolding handle_conv_key clear_viewport clear_line
handle_conv_key-Good Key.ctrl_g m s g =
    Lands-then Good (broadcast_char m.call_id m.username 7 s) _
      (broadcast_char-Stays m.call_id m.username 7 s g.0) (λ s' v. (v, g.1))
handle_conv_key-Good Key.tab m s g =
    let space = λ (t : Calls). broadcast_char m.call_id m.username 32 t in
    let stays = λ (t : Calls) (v : Inv t). broadcast_char-Stays m.call_id m.username 32 t v in
    Lands-then Good (space s) _ (stays s g.0) (λ s1 v1.
      Lands-then Good (space s1) _ (stays s1 v1) (λ s2 v2.
        Lands-then Good (space s2) _ (stays s2 v2) (λ s3 v3.
          Lands-then Good (space s3) _ (stays s3 v3) (λ s4 v4.
            Lands-then Good (space s4) _ (stays s4 v4) (λ s5 v5.
              (v5, change_first-Coherent m.username _ m (spaces-username m.width) g.1))))))
handle_conv_key-Good Key.ctrl_l m s g = shown-Good 12 clear_viewport m s (λ v. refl) g
handle_conv_key-Good Key.ctrl_u m s g = shown-Good 21 clear_line m s (λ v. refl) g
handle_conv_key-Good Key.enter m s g = type_rune-Good 13 m s g
handle_conv_key-Good Key.backspace m s g = type_rune-Good 8 m s g
handle_conv_key-Good Key.space m s g = type_rune-Good 32 m s g
handle_conv_key-Good (Key.runes rs) m s g = type_rune-Good (only_rune rs) m s g
handle_conv_key-Good Key.ctrl_z m s g = g
handle_conv_key-Good Key.ctrl_c m s g = g
handle_conv_key-Good Key.escape m s g = g
handle_conv_key-Good Key.other m s g = g
