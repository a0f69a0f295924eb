-- ===== src/Tests/Phones.antt =====
-- The theorems on internal/phone/app.go at concrete inputs.
use retro_vax_bbs.Prelude.{◌≡◌, refl, codes, text_discrete, true, false, some, [], ◌∷◌, All}
use retro_vax_bbs.Registry.Event.{EventType, PhoneEvent}
use retro_vax_bbs.Registry.State.{Registry, connected, init, register, sessions_of}
use retro_vax_bbs.Registry.Decimal.{format_uint}
use retro_vax_bbs.Dict.{find, delete}
use retro_vax_bbs.Phone.Calls.State.{
  Call, Calls, Participant, active, pending, find_call, new_calls,
}
use retro_vax_bbs.Phone.Calls.Admission.{admit, call_id, dial, session_in_call}
use retro_vax_bbs.Phone.Calls.Invariant.{Inv}
use retro_vax_bbs.Phone.Calls.Keeps.Dialing.{dial-Inv}
use retro_vax_bbs.Phone.Calls.Histories.{new_calls-Inv}
use retro_vax_bbs.Phone.Screen.Model.{Model, Turn, new_idle, new_answering, quiet, utf8}
use retro_vax_bbs.Phone.Screen.Events.{handle_phone_event}
use retro_vax_bbs.Phone.Screen.Actions.{Env, do_dial, do_answer}
use retro_vax_bbs.Phone.Screen.Commands.{Key, handle_command_key, open_command}
use retro_vax_bbs.Phone.Screen.Keys.{
  Msg, update, handle_key, handle_conv_key, key_in, is_leave, is_hook,
}
use retro_vax_bbs.Phone.Screen.Coherence.{Coherent, Lands}
use retro_vax_bbs.Phone.Screen.Together.{
  World, Reached, start, opens, gets, settle, Foreign, Reached-Coherent,
}
use retro_vax_bbs.Phone.Screen.Connecting.{Seated, do_answer-do_dial}
use retro_vax_bbs.Phone.Calls.Refusals.{MayRing, admit_iff}
use retro_vax_bbs.Phone.Screen.Seen.{viewport_of}
use retro_vax_bbs.Phone.Screen.Mirror.{
  sent, IsTyped, broadcast_all, receive_all, handle_conv_key-mirrored,
}
use retro_vax_bbs.Phone.Screen.Filters.{handle_phone_event-stray}
use retro_vax_bbs.Phone.Screen.View.{Paint}

abbrev two_online : Registry
two_online =
    (register (codes "BOB") (codes "user") false (codes "LOBBY")
      (register (codes "ALICE") (codes "user") false (codes "LOBBY") init).1).1

-- Texts are taken as they are typed, at the time 7.
abbrev plain_env : Env
plain_env = record { fold = λ c. c; upper = λ t. t; trim_space = λ t. t; now = 7 }

abbrev alice_idle : Model
alice_idle = new_idle (codes "ALICE") (codes "1") true 80 24

abbrev bob_idle : Model
bob_idle = new_idle (codes "BOB") (codes "2") true 80 24

-- ALICE has typed a command.
abbrev alice_typed : Model
alice_typed = record (open_command alice_idle) { command_buf = codes "DIAL BOB" }

both_open :
    Reached
      (λ c. c)
      two_online
      (some (record { screens = alice_idle ∷ bob_idle ∷ []; table = new_calls two_online }))
both_open =
    opens (codes "ALICE") (codes "1") true 80 24 (opens (codes "BOB") (codes "2") true 80 24 start)

alice_types :
    Reached
      (λ c. c)
      two_online
      (some (record { screens = alice_typed ∷ bob_idle ∷ []; table = new_calls two_online }))
unfolding Foreign settle update handle_key is_leave key_in is_hook handle_command_key open_command
    find_call new_idle utf8
alice_types =
    gets plain_env (Msg.key (Key.runes (codes "DIAL BOB"))) [] alice_idle (bob_idle ∷ []) both_open
      (λ target. refl) tt

alice_enters :
    Reached
      (λ c. c)
      two_online
      (settle []
        (bob_idle ∷ [])
        (update plain_env (Msg.key Key.enter) alice_typed (new_calls two_online)))
unfolding Foreign find_call
alice_enters =
    gets plain_env (Msg.key Key.enter) [] alice_typed (bob_idle ∷ []) alice_types (λ target. refl)
      tt

Reached-Coherent_example :
    (w : World) × (settle []
        (bob_idle ∷ [])
        (update plain_env (Msg.key Key.enter) alice_typed (new_calls two_online))
      ≡ some w)
    × Inv w.table
    × All Coherent w.screens
Reached-Coherent_example =
    Reached-Coherent (λ c. c) two_online
      (settle [] (bob_idle ∷ [])
        (update plain_env (Msg.key Key.enter) alice_typed (new_calls two_online)))
      alice_enters

abbrev ringing_bob : Calls
ringing_bob = (dial (λ c. c) (codes "1") (codes "ALICE") (codes "BOB") 7 (new_calls two_online)).0

ringing_bob-Inv : Inv ringing_bob
unfolding find_call
ringing_bob-Inv =
    dial-Inv (λ c. c) (codes "1") (codes "ALICE") (codes "BOB") 7 (new_calls two_online)
      (new_calls-Inv two_online) refl

abbrev alice_talks : Model
alice_talks =
    new_answering (codes "ALICE") (codes "1") (call_id (codes "ALICE") (codes "BOB") 7)
      (codes "BOB" ∷ []) 0 true 80 24

abbrev bob_talks : Model
bob_talks =
    new_answering (codes "BOB") (codes "2") (call_id (codes "ALICE") (codes "BOB") 7)
      (codes "ALICE" ∷ []) 2 true 80 24

handle_conv_key-mirrored_example :
    Lands
      (λ m' s'.
        (broadcast_all alice_talks.call_id alice_talks.username
            (sent (Key.runes (104 ∷ [])))
            ringing_bob
          ≡ some s')
        × Lands
            (λ n' t'.
              viewport_of alice_talks.username n'.viewports
              ≡ viewport_of alice_talks.username m'.viewports)
            (receive_all alice_talks.username (sent (Key.runes (104 ∷ []))) bob_talks ringing_bob))
      (handle_conv_key (Key.runes (104 ∷ [])) alice_talks ringing_bob)
unfolding IsTyped viewport_of new_answering new_idle text_discrete
handle_conv_key-mirrored_example =
    handle_conv_key-mirrored (Key.runes (104 ∷ [])) alice_talks bob_talks ringing_bob ringing_bob
      ringing_bob-Inv (refl, refl, refl) refl refl

abbrev late_hangup : PhoneEvent
late_hangup = record {
  type = EventType.hangup;
  call_id = codes "old";
  caller = codes "CAROL";
  callee = [];
}

handle_phone_event-stray_example :
    handle_phone_event EventType.hangup (codes "12:00") late_hangup alice_idle ringing_bob
    ≡ quiet alice_idle ringing_bob
unfolding new_idle
handle_phone_event-stray_example =
    handle_phone_event-stray EventType.hangup (codes "12:00") late_hangup alice_idle ringing_bob
      (λ e. absurd cc) (λ e. absurd cc) (λ e. absurd cc)

abbrev plain_paint : Paint
plain_paint = record { upper = λ t. t; reverse = λ t. t; today = codes "01-JAN-2026" }

-- BOB's screen once it has received ALICE's ring.
abbrev bob_rung : Model
bob_rung = record bob_idle {
  pending_incoming_call_id = call_id (codes "ALICE") (codes "BOB") 7;
  pending_incoming_caller = codes "ALICE";
}

alice-MayRing : MayRing plain_env.fold (codes "ALICE") (codes "BOB") (new_calls two_online)
unfolding admit connected sessions_of find register delete init session_in_call format_uint
    text_discrete
alice-MayRing =
    (admit_iff plain_env.fold (codes "ALICE") (codes "BOB") (new_calls two_online)).0 refl

do_answer-do_dial_example :
    (t u : Turn) × (do_dial plain_env (codes "BOB") alice_idle (new_calls two_online) ≡ some t)
    × (t.screen.state ≡ pending)
    × (do_answer bob_rung t.table ≡ some u)
    × (u.screen.state ≡ active)
    × ((call : Call) × (p q : Participant) × (find_call call.id u.table.calls ≡ some call)
        × (call.state ≡ active)
        × (call.participants ≡ p ∷ q ∷ [])
        × Seated t.screen call p
        × Seated u.screen call q
        × (t.screen.calls_with ≡ codes "BOB" ∷ [])
        × (u.screen.calls_with ≡ codes "ALICE" ∷ []))
unfolding new_idle find_call
do_answer-do_dial_example =
    do_answer-do_dial plain_env alice_idle bob_rung (new_calls two_online)
      (new_calls-Inv two_online) refl alice-MayRing refl refl refl
