-- ===== src/Phone/Screen/Commands.antt =====
-- internal/phone/app.go: the keys, the help text, the dispatch of the commands and the command line.
use retro_vax_bbs.Prelude.{
  ℕ, Text, codes, Bool, true, false, ◌&&◌, ◌||◌, Option, List, [], ◌∷◌, ◌++◌, ◌==◌, if◌then◌else◌,
}
use retro_vax_bbs.Registry.State.{is_empty}
use retro_vax_bbs.Phone.Viewport.{ViewportText, append, drop_last}
use retro_vax_bbs.Phone.Calls.State.{CallState, idle, pending, active, Calls, same}
use retro_vax_bbs.Phone.Screen.Model.{Model, Turn, quiet, utf8, change_first, clear_viewport}
use retro_vax_bbs.Phone.Screen.Actions.{
  Env, say, do_hangup, do_exit, do_add_to_call, do_dial, do_answer, do_reject,
}

-- tea.KeyMsg: the types that the program tells apart, and the others.
pub data Key : Type 0 where
  ctrl_z ctrl_c ctrl_g ctrl_l ctrl_u tab enter backspace escape space : Key
  runes : List ℕ → Key
  other : Key

-- The text after the first space, trimmed; empty if there is no space.
unfoldable pub argument : (Text → Text) → Text → Text
argument trim [] = []
argument trim (c ∷ cs) = let rest = argument trim cs in if c == 32 then trim cs else rest

-- strings.HasPrefix
unfoldable pub has_prefix : Text → Text → Bool
has_prefix s [] = true
has_prefix [] (c ∷ cs) = false
has_prefix (d ∷ ds) (c ∷ cs) = d == c && has_prefix ds cs

unfoldable pub help_text : List Text
help_text =
    []
    ∷ codes "  PHONE commands:"
    ∷ codes "  ───────────────────────────────────────────────"
    ∷ codes "  DIAL <user>    Start a call, or add to active conference"
    ∷ codes "  ANSWER         Accept an incoming call"
    ∷ codes "  REJECT         Decline an incoming call"
    ∷ codes "  HANGUP  (H)    End call and return to idle"
    ∷ codes "  ADD <user>     Add a user to the active conference"
    ∷ codes "  EXIT           Leave PHONE and return to the lobby"
    ∷ codes "  HELP           Show this text"
    ∷ []
    ∷ codes "  Keyboard shortcuts (in conversation):"
    ∷ codes "  ───────────────────────────────────────────────"
    ∷ codes "  %              Enter command mode (switch-hook)"
    ∷ codes "  Ctrl-Z         Hang up / exit"
    ∷ codes "  Ctrl-G         Ring bell for all participants"
    ∷ codes "  Tab            Insert 5 spaces"
    ∷ codes "  Ctrl-L         Clear your viewport"
    ∷ codes "  Ctrl-U         Clear current line being typed"
    ∷ []
    ∷ []

-- The runes of a line, each appended.
unfoldable pub append_all : ℕ → List ℕ → ViewportText → ViewportText
append_all width [] v = v
append_all width (r ∷ rs) v = append_all width rs (append r width v)

unfoldable pub append_lines : ℕ → List Text → ViewportText → ViewportText
unfolding append_all
append_lines width [] v = v
append_lines width (line ∷ lines) v =
    append_lines width lines (append 13 width (append_all width line v))

unfoldable pub show_help : Model → Model
unfolding help_text append_lines clear_viewport change_first
show_help m = record m {
  viewports =
      change_first m.username (λ v. append_lines m.width help_text (clear_viewport v)) m.viewports;
  help_active = true;
  msg = codes "  Press any key to continue.";
}

abbrev pub in_idle : CallState → Bool
in_idle idle = true
in_idle pending = false
in_idle active = false

-- runCommand
unfoldable pub run_command : Env → Text → Model → Calls → Option Turn
unfolding argument has_prefix show_help say
run_command env cmd m s =
    let up = env.upper cmd in
    let arg = argument env.trim_space cmd in
    if same up (codes "HANGUP") || same up (codes "H")
    then (if in_idle m.state
        then say (codes "%PHONE-W-NOCALL, not currently in a call.") m s
        else do_hangup m s)
    else if same up (codes "EXIT") || same up (codes "EX")
    then do_exit m s
    else if same up (codes "HELP")
    then quiet (show_help m) s
    else if same up (codes "ANSWER")
    then do_answer m s
    else if same up (codes "REJECT")
    then do_reject m s
    else if has_prefix up (codes "DIAL ") || has_prefix up (codes "PHONE ")
    then do_dial env arg m s
    else if same up (codes "DIAL") || same up (codes "PHONE")
    then say (codes "Usage: DIAL <username>") m s
    else if has_prefix up (codes "ADD ")
    then (if is_empty arg
        then say (codes "Usage: ADD <username>") m s
        else if in_idle m.state
        then do_dial env arg m s
        else do_add_to_call env arg m s)
    else if same up (codes "ADD")
    then say (codes "Usage: ADD <username>") m s
    else say (codes "%PHONE-W-UNDEF, unknown command: " ++ (cmd ++ codes "  (HELP for list)")) m s

unfoldable pub close_command : Model → Model
close_command m = record m { in_command_mode = false; command_buf = [] }

unfoldable pub open_command : Model → Model
open_command m = record m { in_command_mode = true; command_buf = [] }

-- handleCommandKey; Backspace takes a byte away.
unfoldable pub handle_command_key : Env → Key → Model → Calls → Option Turn
unfolding run_command close_command
handle_command_key env Key.enter m s =
    run_command env (env.trim_space m.command_buf) (close_command m) s
handle_command_key env Key.backspace m s =
    if is_empty m.command_buf
    then quiet (record m { in_command_mode = false }) s
    else quiet (record m { command_buf = drop_last m.command_buf }) s
handle_command_key env Key.escape m s = quiet (close_command m) s
handle_command_key env (Key.runes rs) m s =
    quiet (record m { command_buf = m.command_buf ++ utf8 rs }) s
handle_command_key env Key.space m s = quiet (record m { command_buf = m.command_buf ++ 32 ∷ [] }) s
handle_command_key env Key.ctrl_z m s = quiet m s
handle_command_key env Key.ctrl_c m s = quiet m s
handle_command_key env Key.ctrl_g m s = quiet m s
handle_command_key env Key.ctrl_l m s = quiet m s
handle_command_key env Key.ctrl_u m s = quiet m s
handle_command_key env Key.tab m s = quiet m s
handle_command_key env Key.other m s = quiet m s
