-- ===== src/Passwords/Forced.antt =====
-- internal/setpassword/app.go and forced.go: the three ways the dialogue is opened, and the change of an
-- expired password as the root program of a session.
use retro_vax_bbs.Prelude.{Text, codes, Bool, true, false, [], ◌∷◌, ◌++◌, if◌then◌else◌}
use retro_vax_bbs.Registry.State.{is_empty}
use retro_vax_bbs.Store.Schema.{Store}
use retro_vax_bbs.Passwords.Dialogue.{Model, Env, Key, new_model, update}

-- NewSelfApp
unfoldable pub new_self_app : Text → Model
unfolding new_model
new_self_app username = new_model username username true true

-- NewAdminApp
unfoldable pub new_admin_app : Text → Text → Model
unfolding new_model
new_admin_app actor target = new_model actor target false true

-- ForcedModel
pub record Forced : Type 0 where
  pub inner : Model
  pub result : Text

-- NewForced
unfoldable pub new_forced : Text → Forced
unfolding new_model
new_forced username = record { inner = new_model username username false false; result = [] }

-- `disconnect` stands for Ctrl-C and Ctrl-D; `Key.cancel` is then Esc.
pub data ForcedKey : Type 0 where
  disconnect : ForcedKey
  key : Key → ForcedKey

abbrev pub is_enter : Key → Bool
is_enter Key.enter = true
is_enter _ = false

unfoldable pub result_of : Model → Text
result_of m =
    if m.is_done
    then m.status_msg
      ++ (10 ∷ 10 ∷ codes "Please reconnect and log in with your new password."
          ++ (10 ∷ 10 ∷ codes "Press Enter to disconnect."))
    else []

unfoldable pub passed_on : Model × Store → Forced × Store
unfolding result_of
passed_on (m, s) = (record { inner = m; result = result_of m }, s)

-- Update of the forced change; the Boolean is tea.Quit.
unfoldable pub forced_update : Env → ForcedKey → Forced → Store → (Forced × Store) × Bool
unfolding passed_on update
forced_update env disconnect f s = ((f, s), true)
forced_update env (key k) f s =
    if is_empty f.result then (passed_on (update env k f.inner s), false) else ((f, s), is_enter k)
