-- ===== src/Phone/Screen/Actions.antt =====
-- internal/phone/app.go: what the commands do (doDial, doAnswer and the others). Upper case and trimming
-- (strings.ToUpper, strings.TrimSpace) and the clock are parameters.
use retro_vax_bbs.Prelude.{
  ℕ, Text, codes, Bool, true, false, not, Option, none, some, List, [], ◌∷◌, ◌++◌, map,
  if◌then◌else◌, ◌>>=◌,
}
use retro_vax_bbs.Registry.State.{is_empty}
use retro_vax_bbs.Phone.Viewport.{blank}
use retro_vax_bbs.Phone.Calls.State.{
  CallState, idle, pending, active, Call, Calls, Participant, Error, already_answered, Result, ok,
  err, same, error_text, error_message,
}
use retro_vax_bbs.Phone.Calls.Admission.{dial}
use retro_vax_bbs.Phone.Calls.Answering.{answer_call, reject_call, Reply}
use retro_vax_bbs.Phone.Calls.Leaving.{hangup_call}
use retro_vax_bbs.Phone.Calls.Inviting
use retro_vax_bbs.Phone.Calls.Inviting.{add, cancel_add, broadcast_char}
use retro_vax_bbs.Phone.Screen.Model.{
  Model, Turn, turn, quiet, notify, forget_ring, go_idle, show_phone, with_app, ring_bell,
  wait_for_char, quits, ringing_text,
}

-- What the handlers ask of the standard library and the clock.
pub record Env : Type 0 where
  pub fold : ℕ → ℕ
  pub upper : Text → Text
  pub trim_space : Text → Text
  pub now : ℕ

-- Hangup of the model's call, if it is in one.
unfoldable pub leave_call : CallState → Model → Calls → Option Calls
leave_call idle m s = some s
leave_call pending m s = hangup_call m.call_id m.session_id s
leave_call active m s = hangup_call m.call_id m.session_id s

-- doHangup
unfoldable pub do_hangup : Model → Calls → Option Turn
unfolding leave_call go_idle show_phone
do_hangup m s = do s' ← leave_call m.state m s; quiet (go_idle m) (show_phone m s')

-- doExit
unfoldable pub do_exit : Model → Calls → Option Turn
unfolding leave_call with_app
do_exit m s = do
  s' ← leave_call m.state m s
  turn (record m { done = true }) (with_app m.username (codes "LOBBY") s') (quits ∷ [])

-- cancelPendingAdd
unfoldable pub cancel_pending_add : Model → Calls → Option Turn
unfolding notify
cancel_pending_add m s = do
  s' ← cancel_add m.call_id m.pending_add_target m.username s
  notify (codes "Cancelled ringing " ++ (m.pending_add_target ++ codes ".")) 5
      (record m { pending_add_target = [] }) s'

unfoldable pub say : Text → Model → Calls → Option Turn
say text m s = quiet (record m { msg = text }) s

-- The end of doAddToCall.
unfoldable pub add_sent : Text → Model → Calls × Option Error → Option Turn
unfolding say
add_sent target m (s, some e) = say (error_message e target) m s
add_sent target m (s, none) =
    quiet
      (record m {
        pending_add_target = target;
        msg = codes "Ringing " ++ (target ++ codes "...  (press any key to cancel)");
      })
      s

abbrev pub is_active : CallState → Bool
is_active idle = false
is_active pending = false
is_active active = true

-- doAddToCall
unfoldable pub do_add_to_call : Env → Text → Model → Calls → Option Turn
unfolding add_sent say
do_add_to_call env target m s =
    if is_empty target
    then say (codes "Usage: ADD <username>") m s
    else if not (is_active m.state)
    then say (codes "Must be in an active call to add someone.") m s
    else add_sent target m (add env.fold m.call_id m.username target s)

-- The end of doDial.
unfoldable pub dialed : Text → Model → Calls × Result (Call × Participant) → Option Turn
unfolding say ring_bell wait_for_char ringing_text
dialed target m (s, err e) = say (error_message e target) m s
dialed target m (s, ok (call, caller)) =
    turn
      (record m {
        call_id = call.id;
        state = pending;
        calls_with = target ∷ [];
        viewports = m.viewports ++ blank target ∷ [];
        my_chars = some caller.incoming;
        status = ringing_text target;
        msg = [];
      })
      s (wait_for_char (some caller.incoming) ++ ring_bell m)

unfoldable pub dial_in : CallState → Env → Text → Model → Calls → Option Turn
unfolding do_add_to_call dialed say
dial_in active env target m s = do_add_to_call env target m s
dial_in pending env target m s = say (codes "Use HANGUP first, then DIAL.") m s
dial_in idle env target m s =
    dialed target m (dial env.fold m.session_id m.username target env.now s)

-- doDial
unfoldable pub do_dial : Env → Text → Model → Calls → Option Turn
unfolding dial_in say
do_dial env target m s =
    if is_empty target
    then say (codes "Usage: DIAL <username>") m s
    else dial_in m.state env target m s

-- The other participants: the loop at the end of doAnswer.
unfoldable pub others_of : Text → List Text → List Text
others_of username [] = []
others_of username (p ∷ ps) =
    let rest = others_of username ps in if same p username then rest else p ∷ rest

unfoldable pub answer_failed : Error → Model → Calls → Option Turn
unfolding forget_ring notify say
answer_failed already_answered m s =
    notify (codes "%PHONE-I-ANSWERED, call was already answered elsewhere.") 5 (forget_ring m) s
answer_failed e m s =
    say (codes "%PHONE-E-ANSWER, " ++ error_text e) (record m { pending_incoming_call_id = [] }) s

unfoldable pub in_answered_call : Call → Participant → Model → Calls → Option Turn
unfolding forget_ring others_of wait_for_char
in_answered_call call callee m s =
    let others = others_of m.username (Inviting.participants call.id s) in
    turn
      (record (forget_ring m) {
        call_id = call.id;
        state = active;
        my_chars = some callee.incoming;
        msg = [];
        status = [];
        calls_with = others;
        viewports = blank m.username ∷ map blank others;
      })
      s (wait_for_char (some callee.incoming))

unfoldable pub answer_sent : Model → Reply → Option Turn
unfolding answer_failed in_answered_call
answer_sent m (s, err e) = answer_failed e m s
answer_sent m (s, ok (call, callee)) = in_answered_call call callee m s

-- doAnswer
unfoldable pub do_answer : Model → Calls → Option Turn
unfolding answer_sent say
do_answer m s =
    let sent : Option Turn = (do
      reply ← answer_call m.pending_incoming_call_id m.session_id m.username s
      answer_sent m reply) in
    if is_empty m.pending_incoming_call_id
    then say (codes "%PHONE-W-NOCALL, no incoming call to answer.") m s
    else sent

unfoldable pub reject_sent : Model → Calls × Option Error → Option Turn
unfolding notify
reject_sent m (s, some e) = notify (codes "%PHONE-E-REJECT, " ++ error_text e) 5 m s
reject_sent m (s, none) = notify (codes "Call rejected.") 5 m s

-- doReject
unfoldable pub do_reject : Model → Calls → Option Turn
unfolding reject_sent forget_ring notify
do_reject m s =
    let sent : Option Turn = (do
      reply ← reject_call m.pending_incoming_call_id m.username s
      reject_sent (forget_ring m) reply) in
    if is_empty m.pending_incoming_call_id
    then notify (codes "%PHONE-W-NOCALL, no incoming call to reject.") 5 m s
    else sent
