-- ===== src/Phone/Screen/Rows.antt =====
-- internal/phone/app.go: the number of lines that View writes.
use retro_vax_bbs.Prelude.{suc, ◌+◌, ◌-◌, ◌*◌, Text, List, [], ◌∷◌, ◌++◌, length, replicate}
use retro_vax_bbs.Prelude.Int.{pos_part}
use retro_vax_bbs.Phone.Layout.{compute}
use retro_vax_bbs.Phone.Screen.Model.{Model}
use retro_vax_bbs.Phone.Screen.View.{
  Paint, viewports_lines, rendered, header, command_line, info_line,
}

-- The lines between the first and the last.
abbrev between_lines : Paint → Model → List Text
between_lines paint m =
    let layout = compute m.width m.height (length m.viewports) in
    let rows = pos_part layout.viewport_text_rows in
    header paint m.width
    ∷ command_line m
    ∷ info_line m
    ∷ (viewports_lines paint m rows layout.participants m.viewports
        ++ replicate (suc m.height - (5 + rendered layout.participants m.viewports * (2 + rows)))
            [])
