-- ===== src/Phone/Screen/Keys.antt =====
-- internal/phone/app.go: the keys of a conversation, the modes of the keyboard, and Update.
use retro_vax_bbs.Prelude.{
  ℕ, Text, Bool, true, false, not, ◌&&◌, Option, List, [], ◌∷◌, ◌==◌, if◌then◌else◌, ◌>>=◌,
}
use retro_vax_bbs.Registry.Event.{PhoneEvent}
use retro_vax_bbs.Registry.State.{is_empty}
use retro_vax_bbs.Phone.Viewport.{append}
use retro_vax_bbs.Phone.Calls.State.{CallState, idle, pending, active, Calls}
use retro_vax_bbs.Phone.Calls.Inviting.{broadcast_char}
use retro_vax_bbs.Phone.Screen.Model.{
  Model, Turn, turn, quiet, change_first, clear_viewport, clear_line, ring_bell,
}
use retro_vax_bbs.Phone.Screen.Events
use retro_vax_bbs.Phone.Screen.Events.{handle_phone_event}
use retro_vax_bbs.Phone.Screen.Actions.{Env, do_hangup, do_exit, cancel_pending_add}
use retro_vax_bbs.Phone.Screen.Commands.{Key, in_idle, open_command, handle_command_key}

-- A rune that is typed: it goes into the own viewport and to the others.
unfoldable pub type_rune : ℕ → Model → Calls → Option Turn
unfolding change_first
type_rune r m s = do
  s' ← broadcast_char m.call_id m.username r s
  quiet (record m { viewports = change_first m.username (append r m.width) m.viewports }) s'

-- msg.Runes[0] of a single rune, and the zero value of r for more.
abbrev pub only_rune : List ℕ → ℕ
only_rune [] = 0
only_rune (r ∷ []) = r
only_rune (r ∷ r' ∷ rs) = 0

-- handleConvKey
unfoldable pub handle_conv_key : Key → Model → Calls → Option Turn
unfolding type_rune clear_viewport clear_line change_first ring_bell
handle_conv_key Key.ctrl_g m s = do
  s' ← broadcast_char m.call_id m.username 7 s
  turn m s' (ring_bell m)
handle_conv_key Key.tab m s = do
  s1 ← broadcast_char m.call_id m.username 32 s
  s2 ← broadcast_char m.call_id m.username 32 s1
  s3 ← broadcast_char m.call_id m.username 32 s2
  s4 ← broadcast_char m.call_id m.username 32 s3
  s5 ← broadcast_char m.call_id m.username 32 s4
  quiet
      (record m {
        viewports =
            change_first m.username
              (λ v.
                append 32 m.width
                  (append 32 m.width (append 32 m.width (append 32 m.width (append 32 m.width v)))))
              m.viewports;
      })
      s5
handle_conv_key Key.ctrl_l m s = do
  s' ← broadcast_char m.call_id m.username 12 s
  quiet (record m { viewports = change_first m.username clear_viewport m.viewports }) s'
handle_conv_key Key.ctrl_u m s = do
  s' ← broadcast_char m.call_id m.username 21 s
  quiet (record m { viewports = change_first m.username clear_line m.viewports }) s'
handle_conv_key Key.enter m s = type_rune 13 m s
handle_conv_key Key.backspace m s = type_rune 8 m s
handle_conv_key Key.space m s = type_rune 32 m s
handle_conv_key (Key.runes rs) m s = type_rune (only_rune rs) m s
handle_conv_key Key.ctrl_z m s = quiet m s
handle_conv_key Key.ctrl_c m s = quiet m s
handle_conv_key Key.escape m s = quiet m s
handle_conv_key Key.other m s = quiet m s

-- The key of the switch hook, '%'.
unfoldable pub is_hook : Key → Bool
is_hook (Key.runes (r ∷ [])) = r == 37
is_hook k = false

unfoldable pub is_leave : Key → Bool
is_leave Key.ctrl_z = true
is_leave Key.ctrl_c = true
is_leave k = false

-- Any key ends the help text.
unfoldable pub end_help : Model → Model
unfolding change_first clear_viewport
end_help m = record m {
  help_active = false;
  msg = [];
  viewports = change_first m.username clear_viewport m.viewports;
}

unfoldable pub key_in : CallState → Env → Key → Model → Calls → Option Turn
unfolding is_hook open_command handle_command_key handle_conv_key
key_in pending env k m s = do_hangup m s
key_in idle env k m s =
    if is_hook k
    then quiet (open_command m) s
    else handle_command_key env k (if m.in_command_mode then m else open_command m) s
key_in active env k m s =
    if not (is_empty m.pending_add_target)
    then cancel_pending_add m s
    else if is_hook k && not m.in_command_mode
    then quiet (open_command m) s
    else if m.in_command_mode
    then handle_command_key env k m s
    else handle_conv_key k m s

-- handleKey
unfoldable pub handle_key : Env → Key → Model → Calls → Option Turn
unfolding is_leave end_help key_in
handle_key env k m s =
    if is_leave k
    then (if in_idle m.state then do_exit m s else do_hangup m s)
    else if m.help_active
    then quiet (end_help m) s
    else key_in m.state env k m s

-- The messages of Update.
pub data Msg : Type 0 where
  window_size : ℕ → ℕ → Msg
  char_arrived : ℕ → Text → Msg
  clear_msg : ℕ → Msg
  phone_event : Text → PhoneEvent → Msg
  key : Key → Msg
  other_msg : Msg

-- Update
unfoldable pub update : Env → Msg → Model → Calls → Option Turn
unfolding handle_phone_event handle_key
update env (Msg.window_size w h) m s = quiet (record m { width = w; height = h }) s
update env (Msg.char_arrived r sender) m s = Events.char_arrived r sender m s
update env (Msg.clear_msg gen) m s = Events.clear_msg gen m s
update env (Msg.phone_event clock ev) m s = handle_phone_event ev.type clock ev m s
update env (Msg.key k) m s = handle_key env k m s
update env Msg.other_msg m s = quiet m s
