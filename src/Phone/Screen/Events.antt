-- ===== src/Phone/Screen/Events.antt =====
-- internal/phone/app.go: Update's cases for characters, timers and phone events.
use retro_vax_bbs.Prelude.{
  ℕ, Text, codes, not, Option, List, [], ◌∷◌, ◌++◌, any, ◌==◌, if◌then◌else◌, ◌>>=◌,
}
use retro_vax_bbs.Registry.Event.{EventType, PhoneEvent}
use retro_vax_bbs.Registry.State.{is_empty}
use retro_vax_bbs.Phone.Viewport.{ViewportText, blank, append}
use retro_vax_bbs.Phone.Calls.State.{CallState, idle, pending, active, Calls, same}
use retro_vax_bbs.Phone.Calls.Leaving.{hangup_call}
use retro_vax_bbs.Phone.Screen.Model.{
  Model, Turn, turn, quiet, utf8, notify, set_notification, change_first, clear_viewport,
  clear_line, forget_ring, go_idle, show_phone, ring_bell, wait_for_char, clears_later,
}

-- What a received rune does to its sender's viewport.
unfoldable pub show_rune : ℕ → ℕ → ViewportText → ViewportText
unfolding clear_viewport clear_line
show_rune width r v =
    if r == 12 then clear_viewport v else if r == 21 then clear_line v else append r width v

-- The case of charArrivedMsg.
unfoldable pub char_arrived : ℕ → Text → Model → Calls → Option Turn
unfolding change_first ring_bell wait_for_char
char_arrived r sender m s =
    if r == 7
    then turn m s (wait_for_char m.my_chars ++ ring_bell m)
    else turn (record m { viewports = change_first sender (show_rune m.width r) m.viewports }) s
        (wait_for_char m.my_chars)

-- The case of clearMsgMsg.
unfoldable pub clear_msg : ℕ → Model → Calls → Option Turn
clear_msg gen m s = if gen == m.msg_generation then quiet (record m { msg = [] }) s else quiet m s

abbrev pub stars : Text → Text
stars t = codes "*** " ++ (t ++ codes " ***")

-- The pending ADD target, once the callee has answered, declined or gone.
unfoldable pub drop_target : Text → Model → Model
drop_target callee m = record m {
  pending_add_target = if same m.pending_add_target callee then [] else m.pending_add_target;
}

unfoldable pub admit_viewport : Text → Model → Model
admit_viewport user m =
    if any (λ (v : ViewportText). same v.username user) m.viewports then m else record m {
      calls_with = m.calls_with ++ user ∷ [];
      viewports = m.viewports ++ blank user ∷ [];
    }

unfoldable pub answered : CallState → Text → Model → Model
unfolding drop_target admit_viewport
answered idle callee m = m
answered pending callee m = record m { state = active; status = [] }
answered active callee m = drop_target callee (admit_viewport callee m)

unfoldable pub on_answer : PhoneEvent → Model → Calls → Option Turn
unfolding answered notify
on_answer ev m s =
    if not (same ev.call_id m.call_id)
    then quiet m s
    else notify (stars (ev.callee ++ codes " joined the call")) 10 (answered m.state ev.callee m) s

-- The loops that take a user out of the viewports and of the other participants.
unfoldable pub viewports_without : Text → List ViewportText → List ViewportText
viewports_without user [] = []
viewports_without user (v ∷ vs) =
    let rest = viewports_without user vs in if same v.username user then rest else v ∷ rest

unfoldable pub names_without : Text → List Text → List Text
names_without user [] = []
names_without user (u ∷ us) =
    let rest = names_without user us in if same u user then rest else u ∷ rest

unfoldable pub without_user : Text → Model → Model
unfolding viewports_without names_without
without_user user m = record m {
  viewports = viewports_without user m.viewports;
  calls_with = names_without user m.calls_with;
}

-- The end of the CallActive branch of EventHangup: the last one left hangs up too.
unfoldable pub departed : Text → Model → Calls → Option Turn
unfolding without_user go_idle show_phone notify
departed user m s =
    let left = without_user user m in
    let text = stars (user ++ codes " has left the call") in
    let alone : Option Turn = (do
      s' ← hangup_call left.call_id left.session_id s
      notify text 10 (go_idle left) (show_phone left s')) in
    if is_empty left.calls_with then alone else notify text 10 left s

unfoldable pub cancelled : PhoneEvent → Model → Calls → Option Turn
unfolding forget_ring notify
cancelled ev m s = notify (stars (ev.caller ++ codes " cancelled the call")) 10 (forget_ring m) s

unfoldable pub on_hangup : CallState → PhoneEvent → Model → Calls → Option Turn
unfolding cancelled departed
on_hangup idle ev m s =
    if same ev.call_id m.pending_incoming_call_id then cancelled ev m s else quiet m s
on_hangup pending ev m s = if not (same ev.call_id m.call_id) then quiet m s else cancelled ev m s
on_hangup active ev m s =
    if not (same ev.call_id m.call_id)
    then quiet m s
    else if not (is_empty ev.callee)
    then quiet (record m { msg = [] }) s
    else departed ev.caller m s

-- A ring of ours that ends with no answer: in a call it is a conference ring, and else the call itself.
unfoldable pub ring_over : CallState → Text → Text → Text → Model → Calls → Option Turn
unfolding drop_target go_idle show_phone notify
ring_over active callee in_call out_of_call m s = notify in_call 10 (drop_target callee m) s
ring_over idle callee in_call out_of_call m s = notify out_of_call 10 (go_idle m) (show_phone m s)
ring_over pending callee in_call out_of_call m s =
    notify out_of_call 10 (go_idle m) (show_phone m s)

unfoldable pub on_reject : PhoneEvent → Model → Calls → Option Turn
unfolding ring_over
on_reject ev m s =
    if not (same ev.call_id m.call_id)
    then quiet m s
    else ring_over m.state ev.callee (stars (ev.callee ++ codes " declined to join the call"))
        (stars (ev.callee ++ codes " rejected the call")) m s

unfoldable pub on_gone : Text → PhoneEvent → Model → Calls → Option Turn
unfolding ring_over
on_gone reason ev m s =
    if not (same ev.call_id m.call_id)
    then quiet m s
    else ring_over m.state ev.callee (stars (ev.callee ++ reason)) (stars (ev.callee ++ reason)) m s

unfoldable pub on_answer_elsewhere : PhoneEvent → Model → Calls → Option Turn
unfolding forget_ring notify
on_answer_elsewhere ev m s =
    if same ev.call_id m.pending_incoming_call_id
    then notify (stars (codes "Call answered on another session")) 10 (forget_ring m) s
    else quiet m s

unfoldable pub on_ringing : PhoneEvent → Model → Calls → Option Turn
unfolding notify
on_ringing ev m s =
    if not (same ev.call_id m.call_id)
    then quiet m s
    else notify (stars (ev.caller ++ (codes " is ringing " ++ ev.callee))) 10 m s

-- A ring outside of the idle state.
unfoldable pub call_waiting : Text → PhoneEvent → Model → Calls → Option Turn
unfolding set_notification ring_bell
call_waiting clock ev m s =
    let m' =
      set_notification
        (stars (
          ev.caller ++ (codes " is calling (" ++ (clock ++ utf8 (codes ") — %ADD to conference")))))
        m in
    turn m' s (clears_later m'.msg_generation 10 ∷ ring_bell m')

-- `clock` is the time of day, printed.
unfoldable pub on_ring : CallState → Text → PhoneEvent → Model → Calls → Option Turn
unfolding ring_bell call_waiting
on_ring idle clock ev m s =
    turn
      (record m {
        pending_incoming_call_id = ev.call_id;
        pending_incoming_caller = ev.caller;
        msg =
            ev.caller
            ++ (codes " is phoning you ("
                ++ (clock ++ utf8 (codes ") — ANSWER to accept, REJECT to decline")));
      })
      s (ring_bell m)
on_ring pending clock ev m s = call_waiting clock ev m s
on_ring active clock ev m s = call_waiting clock ev m s

-- handlePhoneEvent
unfoldable pub handle_phone_event : EventType → Text → PhoneEvent → Model → Calls → Option Turn
unfolding on_answer on_hangup on_reject on_gone on_answer_elsewhere on_ringing on_ring
handle_phone_event EventType.answer clock ev m s = on_answer ev m s
handle_phone_event EventType.hangup clock ev m s = on_hangup m.state ev m s
handle_phone_event EventType.reject clock ev m s = on_reject ev m s
handle_phone_event EventType.callee_gone clock ev m s = on_gone (codes " has disconnected") ev m s
handle_phone_event EventType.callee_unavailable clock ev m s =
    on_gone (codes " is unavailable (on another call)") ev m s
handle_phone_event EventType.answer_elsewhere clock ev m s = on_answer_elsewhere ev m s
handle_phone_event EventType.ringing clock ev m s = on_ringing ev m s
handle_phone_event EventType.ring clock ev m s = on_ring m.state clock ev m s
handle_phone_event EventType.admin_notify clock ev m s = quiet m s
