-- ===== src/Passwords/Screen.antt =====
-- internal/setpassword/setpassword.go and forced.go: View.
use retro_vax_bbs.Prelude.{
  ◌≡◌, refl, Text, codes, Bool, [], ◌∷◌, ◌++◌, length, replicate, if◌then◌else◌,
}
use retro_vax_bbs.Registry.State.{is_empty}
use retro_vax_bbs.Phone.Calls.State.{same}
use retro_vax_bbs.Phone.Screen.Model.{utf8}
use retro_vax_bbs.Registration.Screen.{cursor, masked, indented, error_line}
use retro_vax_bbs.Passwords.Dialogue.{Step, Model}
use retro_vax_bbs.Passwords.Forced.{Forced}

unfoldable pub title : Model → Text
title m =
    if same m.actor m.target
    then codes "SET PASSWORD" ++ 10 ∷ 10 ∷ []
    else codes "RESET PASSWORD " ++ (m.target ++ 10 ∷ 10 ∷ [])

unfoldable pub prompt : Step → Text → Text
unfolding cursor masked
prompt Step.current input = codes "  Current password: " ++ (masked input ++ cursor)
prompt Step.new input =
    codes "  New password: "
    ++ (masked input ++ (cursor ++ (codes "  (8-72 characters)" ++ 10 ∷ [])))
prompt Step.confirm input = codes "  Confirm new password: " ++ (masked input ++ cursor)

unfoldable pub cancel_line : Bool → Text
cancel_line cancelable = if cancelable then 10 ∷ codes "  Esc / Ctrl+C  cancel" ++ 10 ∷ [] else []

-- View after its first line.
unfoldable pub body : Model → Text
unfolding title prompt error_line cancel_line
body m =
    title m ++ (prompt m.step m.input ++ (error_line m.validation_err ++ cancel_line m.cancelable))

-- View
unfoldable pub view : Model → Text
unfolding body
view m = 10 ∷ body m

-- View of the forced change.
unfoldable pub forced_view : Forced → Text
unfolding body indented utf8
forced_view f =
    if is_empty f.result
    then 10 ∷ codes "  Your password has expired and must be changed before you continue."
      ++ (10 ∷ 32 ∷ 32 ∷ utf8 (replicate 40 9472) ++ 10 ∷ body f.inner)
    else 10 ∷ 32 ∷ 32 ∷ indented f.result

-- The view shows nothing of what is being typed but the number of its bytes, and nothing of the password
-- that was typed first.
pub view-hides :
    (m : Model) (typed chosen : Text)
    → length typed ≡ length m.input
    → view (record m { input = typed; new_password = chosen }) ≡ view m
unfolding view body prompt masked
view-hides m typed chosen e = by_step m.step
  where
    by_step :
        (st : Step)
        → view (record m { step = st; input = typed; new_password = chosen })
          ≡ view (record m { step = st })
    by_step Step.current = rw e refl
    by_step Step.new = rw e refl
    by_step Step.confirm = rw e refl
