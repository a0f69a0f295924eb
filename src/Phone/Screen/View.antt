-- ===== src/Phone/Screen/View.antt =====
-- internal/phone/app.go: View, as its lines. Upper case, inverse video and the printed day are parameters.
use retro_vax_bbs.Prelude.{
  ℕ, zero, suc, ◌+◌, ◌-◌, ◌*◌, ◌/◌, Text, codes, Bool, true, false, not, ◌&&◌, List, [], ◌∷◌, ◌++◌,
  length, replicate, ltb, ◌==◌, if◌then◌else◌,
}
use retro_vax_bbs.Prelude.Int.{ℤ, pos, negsuc, pos_part}
use retro_vax_bbs.Registry.State.{is_empty}
use retro_vax_bbs.Phone.Layout.{compute}
use retro_vax_bbs.Phone.Viewport.{ViewportText, display_lines}
use retro_vax_bbs.Phone.Calls.State.{CallState, idle, pending, active, same}
use retro_vax_bbs.Phone.Screen.Model.{Model, utf8}

pub record Paint : Type 0 where
  pub upper : Text → Text
  pub reverse : Text → Text
  pub today : Text

unfoldable pub spaces : ℕ → Text
spaces n = replicate n 32

unfoldable pub rule : ℕ → Text
rule n = replicate n 45

abbrev pub title : Text
title = codes "VAX-BBS Phone Facility"

unfoldable pub header : Paint → ℕ → Text
unfolding spaces
header paint width =
    let now = paint.upper paint.today in
    let w =
      if ltb width (length title + length now + 2) then length title + length now + 2 else width in
    let gaps = w - length title - length now in
    let left = gaps / 2 in
    let right = if ltb (gaps - left) 1 then 1 else gaps - left in
    spaces left ++ (paint.reverse title ++ (spaces right ++ now))

unfoldable pub command_line : Model → Text
unfolding utf8
command_line m =
    if m.in_command_mode then codes "% " ++ (m.command_buf ++ utf8 (codes "█")) else codes "%"

abbrev pub idle_mode_tip : Text
idle_mode_tip = codes "type HELP for commands"

abbrev pub active_call_tip : Text
active_call_tip = codes "type '%' to enter commands or CTRL/Z to hangup/exit"

-- The tip of a state, outside of command mode.
unfoldable pub tip : CallState → Text
tip idle = idle_mode_tip
tip active = active_call_tip
tip pending = []

unfoldable pub info_line : Model → Text
unfolding tip
info_line m =
    if not (is_empty m.msg)
    then m.msg
    else if not (is_empty m.status)
    then m.status
    else if m.in_command_mode
    then idle_mode_tip
    else tip m.state

abbrev pub in_call : CallState → Bool
in_call idle = false
in_call pending = false
in_call active = true

abbrev pub at : ℤ → ℕ → Bool
at (pos k) j = k == j
at (negsuc k) j = false

-- The lines of a viewport from row j on, with the block at the cursor's row.
unfoldable pub text_lines : Bool → ℤ → ℕ → List Text → List Text
unfolding utf8
text_lines show cursor j [] = []
text_lines show cursor j (line ∷ rest) =
    (if show && at cursor j then utf8 line ++ utf8 (codes "█") else utf8 line)
    ∷ text_lines show cursor (suc j) rest

unfoldable pub label_line : Paint → ℕ → Text → Text
unfolding spaces
label_line paint width username =
    let label = paint.upper username in spaces ((width - length label) / 2) ++ label

unfoldable pub viewport_lines : Paint → Model → ℕ → ViewportText → List Text
unfolding text_lines label_line rule
viewport_lines paint m rows v =
    let show = same v.username m.username && in_call m.state && not m.in_command_mode in
    rule m.width
    ∷ label_line paint m.width v.username
    ∷ text_lines show (display_lines rows v).1 0 (display_lines rows v).0

-- The loop over the viewports, which ends at the number of the layout.
unfoldable pub viewports_lines : Paint → Model → ℕ → ℕ → List ViewportText → List Text
unfolding viewport_lines
viewports_lines paint m rows n [] = []
viewports_lines paint m rows zero (v ∷ vs) = []
viewports_lines paint m rows (suc n) (v ∷ vs) =
    viewport_lines paint m rows v ++ viewports_lines paint m rows n vs

unfoldable pub rendered : ℕ → List ViewportText → ℕ
rendered n [] = 0
rendered zero (v ∷ vs) = 0
rendered (suc n) (v ∷ vs) = suc (rendered n vs)

-- The lines of View.
unfoldable pub view_lines : Paint → Model → List Text
unfolding header command_line info_line viewports_lines rendered rule
view_lines paint m =
    let layout = compute m.width m.height (length m.viewports) in
    let rows = pos_part layout.viewport_text_rows in
    let expected = 5 + rendered layout.participants m.viewports * (2 + rows) in
    []
    ∷ header paint m.width
    ∷ command_line m
    ∷ info_line m
    ∷ (viewports_lines paint m rows layout.participants m.viewports
        ++ (replicate (suc m.height - expected) [] ++ rule m.width ∷ []))

-- The lines with a line feed between each two.
unfoldable pub joined : List Text → Text
joined [] = []
joined (l ∷ []) = l
joined (l ∷ k ∷ ls) = l ++ 10 ∷ joined (k ∷ ls)

-- View
unfoldable pub view : Paint → Model → Text
unfolding view_lines joined
view paint m = joined (view_lines paint m)
