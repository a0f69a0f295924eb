-- ===== src/Phone/Screen/Keyboard.antt =====
-- internal/phone/app.go: what the keys leave of a coherent screen over a sound call table.
use retro_vax_bbs.Prelude.{
  ◌≡◌, Text, codes, Bool, true, false, not, ◌&&◌, ◌||◌, none, if◌then◌else◌,
}
use retro_vax_bbs.Registry.State.{is_empty}
use retro_vax_bbs.Phone.Calls.State.{CallState, idle, pending, active, Calls, same, find_call}
use retro_vax_bbs.Phone.Calls.Admission.{call_id}
use retro_vax_bbs.Phone.Screen.Model.{Model}
use retro_vax_bbs.Phone.Screen.Actions.{Env}
use retro_vax_bbs.Phone.Screen.Keys.{is_hook, is_leave, key_in, handle_key}
use retro_vax_bbs.Phone.Screen.Commands.{
  Key, argument, has_prefix, in_idle, run_command, close_command, open_command, handle_command_key,
}
use retro_vax_bbs.Phone.Screen.Coherence.{Coherent, Lands, Lands-if}
use retro_vax_bbs.Phone.Screen.Receiving.{Good}
use retro_vax_bbs.Phone.Screen.Commanding.{
  say-Good, do_hangup-Good, do_exit-Good, cancel_pending_add-Good, do_add_to_call-Good,
  do_dial-Good, do_answer-Good, do_reject-Good,
}
use retro_vax_bbs.Phone.Screen.Typing.{show_help-Coherent, end_help-Coherent, handle_conv_key-Good}

-- No call of the table has the id that a dial of this user's would make.
abbrev pub Unused : Env → Text → Calls → Type 0
Unused env username s = (target : Text) → find_call (call_id username target env.now) s.calls ≡ none

open_command-Coherent : (m : Model) → Coherent m → Coherent (open_command m)
unfolding open_command
open_command-Coherent m c = record { own_first = c.own_first; mode = c.mode }

close_command-Coherent : (m : Model) → Coherent m → Coherent (close_command m)
unfolding close_command
close_command-Coherent m c = record { own_first = c.own_first; mode = c.mode }

module _ (env : Env) where
  run_command-Good :
      (cmd : Text) (m : Model) (s : Calls)
      → Unused env m.username s
      → Good m s
      → Lands Good (run_command env cmd m s)
  unfolding run_command
  run_command-Good cmd m s unused g =
      let up = env.upper cmd in
      let arg = argument env.trim_space cmd in
      let says = λ (text : Text). say-Good text m s g.0 g.1 in
      let dials = do_dial-Good env arg m s (unused arg) g in
      Lands-if Good (same up (codes "HANGUP") || same up (codes "H")) _ _
        (Lands-if Good (in_idle m.state) _ _ (says _) (do_hangup-Good m s g.0))
        (Lands-if Good (same up (codes "EXIT") || same up (codes "EX")) _ _ (do_exit-Good m s g) (
          Lands-if Good (same up (codes "HELP")) _ _ (g.0, show_help-Coherent m g.1)
            (Lands-if Good (same up (codes "ANSWER")) _ _ (do_answer-Good m s g) (
              Lands-if Good (same up (codes "REJECT")) _ _ (do_reject-Good m s g) (
                Lands-if Good (has_prefix up (codes "DIAL ") || has_prefix up (codes "PHONE ")) _ _
                  dials
                  (Lands-if Good (same up (codes "DIAL") || same up (codes "PHONE")) _ _ (says _) (
                    Lands-if Good (has_prefix up (codes "ADD ")) _ _
                      (Lands-if Good (is_empty arg) _ _ (says _) (
                        Lands-if Good (in_idle m.state) _ _ dials
                          (do_add_to_call-Good env arg m s g)))
                      (Lands-if Good (same up (codes "ADD")) _ _ (says _) (says _)))))))))

  handle_command_key-Good :
      (k : Key) (m : Model) (s : Calls)
      → Unused env m.username s
      → Good m s
      → Lands Good (handle_command_key env k m s)
  unfolding handle_command_key close_command
  handle_command_key-Good Key.enter m s unused g =
      run_command-Good (env.trim_space m.command_buf) (close_command m) s unused
        (g.0, close_command-Coherent m g.1)
  handle_command_key-Good Key.backspace m s unused g =
      Lands-if Good (is_empty m.command_buf) _ _
        (g.0, record { own_first = g.1.own_first; mode = g.1.mode })
        (g.0, record { own_first = g.1.own_first; mode = g.1.mode })
  handle_command_key-Good Key.escape m s unused g = (g.0, close_command-Coherent m g.1)
  handle_command_key-Good (Key.runes rs) m s unused g =
      (g.0, record { own_first = g.1.own_first; mode = g.1.mode })
  handle_command_key-Good Key.space m s unused g =
      (g.0, record { own_first = g.1.own_first; mode = g.1.mode })
  handle_command_key-Good Key.ctrl_z m s unused g = g
  handle_command_key-Good Key.ctrl_c m s unused g = g
  handle_command_key-Good Key.ctrl_g m s unused g = g
  handle_command_key-Good Key.ctrl_l m s unused g = g
  handle_command_key-Good Key.ctrl_u m s unused g = g
  handle_command_key-Good Key.tab m s unused g = g
  handle_command_key-Good Key.other m s unused g = g

  opened-Good :
      (b : Bool) (k : Key) (m : Model) (s : Calls)
      → Unused env m.username s
      → Good m s
      → Lands Good (handle_command_key env k (if b then m else open_command m) s)
  unfolding open_command
  opened-Good true k m s unused g = handle_command_key-Good k m s unused g
  opened-Good false k m s unused g =
      handle_command_key-Good k (open_command m) s unused (g.0, open_command-Coherent m g.1)

  key_in-Good :
      (st : CallState) (k : Key) (m : Model) (s : Calls)
      → Unused env m.username s
      → Good m s
      → Lands Good (key_in st env k m s)
  unfolding key_in
  key_in-Good pending k m s unused g = do_hangup-Good m s g.0
  key_in-Good idle k m s unused g =
      Lands-if Good (is_hook k) _ _ (g.0, open_command-Coherent m g.1)
        (opened-Good m.in_command_mode k m s unused g)
  key_in-Good active k m s unused g =
      Lands-if Good (not (is_empty m.pending_add_target)) _ _ (cancel_pending_add-Good m s g) (
        Lands-if Good (is_hook k && not m.in_command_mode) _ _ (g.0, open_command-Coherent m g.1)
          (Lands-if Good m.in_command_mode _ _ (handle_command_key-Good k m s unused g)
            (handle_conv_key-Good k m s g)))

  pub handle_key-Good :
      (k : Key) (m : Model) (s : Calls)
      → Unused env m.username s
      → Good m s
      → Lands Good (handle_key env k m s)
  unfolding handle_key
  handle_key-Good k m s unused g =
      Lands-if Good (is_leave k) _ _
        (Lands-if Good (in_idle m.state) _ _ (do_exit-Good m s g) (do_hangup-Good m s g.0))
        (Lands-if Good m.help_active _ _ (g.0, end_help-Coherent m g.1)
          (key_in-Good m.state k m s unused g))
