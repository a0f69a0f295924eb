-- ===== src/Tests/Screens.antt =====
-- The theorems on internal/phone/layout.go at concrete inputs.
use retro_vax_bbs.Prelude.{ℕ, ◌+◌, ◌*◌, ◌≤◌, ◌<◌, ◌≡◌, refl, codes, List, [], ◌∷◌, ◌++◌, arith, ◌⊎◌}
use retro_vax_bbs.Prelude.Int.{pos, ◌≤ℤ◌, pos_part}
use retro_vax_bbs.Phone.Layout.{
  compute, clamp_count, shrink, text_rows, max_viewports, min_viewport_text_rows, compute-fits,
  compute-maximal,
}
use retro_vax_bbs.Phone.Viewport.{
  ViewportText, blank, feed, display_lines, content, Wrapped, Shows, feed-content, feed-Wrapped,
  display_lines_lem,
}

compute-fits_example :
    (1 ≤ (compute 80 24 9).participants)
    × ((compute 80 24 9).participants ≤ clamp_count 9)
    × (clamp_count 9 ≤ max_viewports)
    × (pos min_viewport_text_rows ≤ℤ (compute 80 24 9).viewport_text_rows)
    × (((compute 80 24 9).participants ≡ 1)
        ⊎ ((compute 80 24 9).participants * (pos_part (compute 80 24 9).viewport_text_rows + 2) + 4
            ≤ 24))
compute-fits_example = compute-fits 80 24 9

four : (compute 80 24 9).participants ≡ 4
unfolding compute clamp_count shrink text_rows
four = refl

six : clamp_count 9 ≡ 6
unfolding clamp_count
six = refl

compute-maximal_example : 24 < 5 * 5 + 4
compute-maximal_example = compute-maximal 80 24 9 5 (omega (arith, four)) (omega (arith, six))

abbrev typed : List ℕ
typed = codes "HELLO"

feed-content_example :
    content (feed 5 typed (blank (codes "BOB"))) ≡ content (blank (codes "BOB")) ++ typed
feed-content_example =
    feed-content 5 typed (blank (codes "BOB"))
      ((refl, refl), ((refl, refl), ((refl, refl), ((refl, refl), ((refl, refl), tt)))))

feed-Wrapped_example : Wrapped 8 (feed 8 (8 ∷ 72 ∷ 13 ∷ 72 ∷ []) (blank (codes "BOB")))
feed-Wrapped_example =
    feed-Wrapped 8 (8 ∷ 72 ∷ 13 ∷ 72 ∷ []) (blank (codes "BOB")) (omega arith) (omega arith, tt)

abbrev shown : ViewportText
shown = record {
  username = codes "BOB";
  lines = codes "A" ∷ codes "B" ∷ codes "C" ∷ codes "D" ∷ [];
  current = codes "E";
}

display_lines_lem_example : Shows 3 (codes "E") (display_lines 3 shown)
display_lines_lem_example = display_lines_lem 3 shown (omega arith)
