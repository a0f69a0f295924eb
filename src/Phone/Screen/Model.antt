-- ===== src/Phone/Screen/Model.antt =====
-- internal/phone/app.go: the model, its constructors, notifications and the helpers that the handlers
-- share. A text is the list of its bytes; a line of a viewport is the list of its runes. Bubble Tea
-- keeps only the model that Update returns, so the viewports are values.
use retro_vax_bbs.Prelude.{
  ℕ, suc, ◌+◌, ◌/◌, ◌%◌, Text, codes, Bool, true, false, Option, none, some, List, [], ◌∷◌, ◌++◌,
  map, ltb, if◌then◌else◌,
}
use retro_vax_bbs.Registry.State.{set_app}
use retro_vax_bbs.Phone.Viewport.{ViewportText, blank}
use retro_vax_bbs.Phone.Calls.State.{CallState, idle, pending, active, Calls, same}

pub record Model : Type 0 where
  pub username : Text
  pub session_id : Text
  pub call_id : Text
  pub is_caller : Bool
  pub state : CallState
  pub calls_with : List Text
  pub viewports : List ViewportText
  pub my_chars : Option ℕ
  pub pending_incoming_call_id : Text
  pub pending_incoming_caller : Text
  pub pending_add_target : Text
  pub in_command_mode : Bool
  pub command_buf : Text
  pub status : Text
  pub msg : Text
  pub width : ℕ
  pub height : ℕ
  pub done : Bool
  -- Whether there is an output writer.
  pub out : Bool
  pub msg_generation : ℕ
  pub help_active : Bool

-- What a tea.Cmd does: waits for a character, rings the bell, clears the message of a generation after
-- some seconds, or quits.
pub data Effect : Type 0 where
  waits : ℕ → Effect
  rings_bell : Effect
  clears_later : ℕ → ℕ → Effect
  quits : Effect

-- What a handler returns, with the call table that it leaves; none is a panic of the call table.
pub record Turn : Type 0 where
  pub screen : Model
  pub table : Calls
  pub effects : List Effect

abbrev pub turn : Model → Calls → List Effect → Option Turn
turn m s es = some (record { screen = m; table = s; effects = es })

-- string(runes)
unfoldable pub utf8_rune : ℕ → Text
utf8_rune r =
    if ltb r 128
    then r ∷ []
    else if ltb r 2048
    then (192 + r / 64) ∷ (128 + r % 64) ∷ []
    else if ltb r 65536
    then (224 + r / 4096) ∷ (128 + r / 64 % 64) ∷ (128 + r % 64) ∷ []
    else (240 + r / 262144) ∷ (128 + r / 4096 % 64) ∷ (128 + r / 64 % 64) ∷ (128 + r % 64) ∷ []

unfoldable pub utf8 : List ℕ → Text
unfolding utf8_rune
utf8 [] = []
utf8 (r ∷ rs) = utf8_rune r ++ utf8 rs

-- m.reg.SetApp
unfoldable pub with_app : Text → Text → Calls → Calls
with_app username app s = record s {
  outside = record s.outside { reg = set_app username app s.reg };
}

-- NewIdle
unfoldable pub new_idle : Text → Text → Bool → ℕ → ℕ → Model
new_idle username session_id out width height = record {
  username = username;
  session_id = session_id;
  call_id = [];
  is_caller = false;
  state = idle;
  calls_with = [];
  viewports = blank username ∷ [];
  my_chars = none;
  pending_incoming_call_id = [];
  pending_incoming_caller = [];
  pending_add_target = [];
  in_command_mode = false;
  command_buf = [];
  status = [];
  msg = [];
  width = width;
  height = height;
  done = false;
  out = out;
  msg_generation = 0;
  help_active = false;
}

unfoldable pub ringing_text : Text → Text
ringing_text callee =
    codes "Ringing " ++ (callee ++ codes "...  (Press any key to cancel call and continue.)")

-- New
unfoldable pub new_dialing : Text → Text → Text → Text → ℕ → Bool → ℕ → ℕ → Model
unfolding new_idle ringing_text
new_dialing username session_id call_id callee my_chars out width height =
    record (new_idle username session_id out width height) {
      call_id = call_id;
      is_caller = true;
      state = pending;
      calls_with = callee ∷ [];
      viewports = blank username ∷ blank callee ∷ [];
      my_chars = some my_chars;
      status = ringing_text callee;
    }

-- NewAnswering
unfoldable pub new_answering : Text → Text → Text → List Text → ℕ → Bool → ℕ → ℕ → Model
unfolding new_idle
new_answering username session_id call_id others my_chars out width height =
    record (new_idle username session_id out width height) {
      call_id = call_id;
      state = active;
      calls_with = others;
      viewports = blank username ∷ map blank others;
      my_chars = some my_chars;
    }

-- ringBellCmd
unfoldable pub ring_bell : Model → List Effect
ring_bell m = if m.out then rings_bell ∷ [] else []

-- waitForChar
unfoldable pub wait_for_char : Option ℕ → List Effect
wait_for_char none = []
wait_for_char (some ch) = waits ch ∷ []

-- setNotification
unfoldable pub set_notification : Text → Model → Model
set_notification text m = record m { msg = text; msg_generation = suc m.msg_generation }

unfoldable pub notify : Text → ℕ → Model → Calls → Option Turn
unfolding set_notification
notify text seconds m s =
    turn (set_notification text m) s (clears_later (suc m.msg_generation) seconds ∷ [])

-- A return that leaves the model as it is.
abbrev pub quiet : Model → Calls → Option Turn
quiet m s = turn m s []

-- The loops over m.viewports that change the first one of a name.
unfoldable pub change_first :
    Text → (ViewportText → ViewportText) → List ViewportText → List ViewportText
change_first name f [] = []
change_first name f (v ∷ vs) = if same v.username name then f v ∷ vs else v ∷ change_first name f vs

unfoldable pub clear_viewport : ViewportText → ViewportText
clear_viewport v = record v { lines = []; current = [] }

unfoldable pub clear_line : ViewportText → ViewportText
clear_line v = record v { current = [] }

unfoldable pub forget_ring : Model → Model
forget_ring m = record m { pending_incoming_call_id = []; pending_incoming_caller = [] }

-- goIdle, but for the registry.
unfoldable pub go_idle : Model → Model
go_idle m = record m {
  state = idle;
  call_id = [];
  calls_with = [];
  my_chars = none;
  viewports = blank m.username ∷ [];
  status = [];
  msg = [];
  in_command_mode = false;
  command_buf = [];
  pending_incoming_call_id = [];
  pending_incoming_caller = [];
}

-- The registry's part of goIdle.
unfoldable pub show_phone : Model → Calls → Calls
unfolding with_app
show_phone m s = with_app m.username (codes "PHONE") s
