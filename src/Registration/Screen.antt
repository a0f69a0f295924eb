-- ===== src/Registration/Screen.antt =====
-- internal/registration/app.go: View.
use retro_vax_bbs.Prelude.{
  Text, codes, [], ◌∷◌, ◌++◌, length, replicate, ◌==◌, if◌then◌else◌, ◌≡◌, refl, ◌⊎◌, inl, inr,
}
use retro_vax_bbs.Registry.State.{is_empty}
use retro_vax_bbs.Phone.Screen.Model.{utf8}
use retro_vax_bbs.Registration.Model.{Step, Model}

unfoldable pub cursor : Text
unfolding utf8
cursor = utf8 (codes "█") ++ 10 ∷ []

unfoldable pub masked : Text → Text
masked t = replicate (length t) 42

-- The lines of the result, each indented.
unfoldable pub indented : Text → Text
indented [] = 10 ∷ []
indented (c ∷ cs) = let rest = indented cs in if c == 10 then 10 ∷ 32 ∷ 32 ∷ rest else c ∷ rest

-- The prompt of a step.
unfoldable pub prompt : Step → Model → Text
unfolding cursor masked utf8
prompt Step.username m =
    codes "  Desired username: "
    ++ (m.input
        ++ (cursor ++ (utf8 (codes "  (3–20 characters, letters/numbers/underscore)") ++ 10 ∷ [])))
prompt Step.email m =
    utf8 (codes "  Email address (optional — press Enter to skip):")
    ++ (10 ∷ 32 ∷ 32 ∷ m.input
        ++ (cursor ++ (codes "  Used only to contact you about your request." ++ 10 ∷ [])))
prompt Step.email_confirm m =
    codes "  Confirm email: "
    ++ (m.input ++ (cursor ++ (codes "  Re-enter to confirm: " ++ (m.email ++ 10 ∷ []))))
prompt Step.invite_code m = codes "  Invite code: " ++ (m.input ++ cursor)
prompt Step.password m =
    codes "  Password: "
    ++ (masked m.input ++ (cursor ++ (codes "  (minimum 8 characters)" ++ 10 ∷ [])))
prompt Step.confirm m = codes "  Confirm password: " ++ (masked m.input ++ cursor)
prompt Step.done m = []

unfoldable pub banner : Text
unfolding utf8
banner =
    10 ∷ codes "  VAX-BBS Account Registration"
    ++ (10 ∷ 32 ∷ 32 ∷ utf8 (replicate 40 9472) ++ 10 ∷ 10 ∷ [])

unfoldable pub error_line : Text → Text
error_line msg = if is_empty msg then [] else 10 ∷ codes "  ! " ++ (msg ++ 10 ∷ [])

unfoldable pub name_line : Text → Text
name_line name = 10 ∷ codes "  Username: " ++ (name ++ 10 ∷ [])

unfoldable pub view_at : Step → Model → Text
unfolding prompt error_line name_line indented
view_at Step.done m = 10 ∷ 32 ∷ 32 ∷ indented m.result
view_at Step.username m = prompt Step.username m ++ error_line m.err_msg
view_at Step.email m = prompt Step.email m ++ (error_line m.err_msg ++ name_line m.username)
view_at Step.email_confirm m =
    prompt Step.email_confirm m ++ (error_line m.err_msg ++ name_line m.username)
view_at Step.invite_code m =
    prompt Step.invite_code m ++ (error_line m.err_msg ++ name_line m.username)
view_at Step.password m = prompt Step.password m ++ (error_line m.err_msg ++ name_line m.username)
view_at Step.confirm m = prompt Step.confirm m ++ (error_line m.err_msg ++ name_line m.username)

-- View
unfoldable pub view : Model → Text
unfolding banner view_at
view m = banner ++ view_at m.step m

-- At the two steps that ask for the password, the screen shows nothing of what is being typed, nor of
-- the password that was typed first, but the number of bytes being typed.
pub view-masked :
    (m : Model) (typed stored : Text)
    → (m.step ≡ Step.password) ⊎ (m.step ≡ Step.confirm)
    → length typed ≡ length m.input
    → view (record m { input = typed; password = stored }) ≡ view m
unfolding view view_at prompt masked
view-masked m typed stored (inl e) same_length = rw (e, same_length) refl
view-masked m typed stored (inr e) same_length = rw (e, same_length) refl
