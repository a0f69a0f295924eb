-- ===== src/Tests/Conversations.antt =====
-- The theorems on internal/phone/call.go at concrete inputs.
use retro_vax_bbs.Prelude.{
  ℕ, ◌≡◌, ◌≢◌, ◌↔◌, ◌⊎◌, refl, Text, codes, text_discrete, false, none, some, [], arith,
}
use mathlib.Core.List.{Mem}
use retro_vax_bbs.Dict.{find, delete}
use retro_vax_bbs.Registry.State.{Registry, init, register, sessions_of, connected}
use retro_vax_bbs.Registry.Event.{EventType, PhoneEvent}
use retro_vax_bbs.Registry.Decimal.{format_uint}
use retro_vax_bbs.Phone.Calls.State.{
  Call, Calls, already_answered, being_rung, err, ok, self_call, find_call, new_calls,
}
use retro_vax_bbs.Phone.Calls.Admission.{
  admit, ring_event, ring_sessions, call_id, dial, new_call, new_participant, ringable_sessions,
  rings_callee, session_in_call,
}
use retro_vax_bbs.Phone.Calls.Answering.{answer_call, event}
use retro_vax_bbs.Phone.Calls.Leaving.{reap_unreachable_rings}
use retro_vax_bbs.Phone.Calls.Keeps.Reaping.{for_user}
use retro_vax_bbs.Phone.Calls.Tables.{without}
use retro_vax_bbs.Phone.Calls.Invariant.{Inv}
use retro_vax_bbs.Phone.Calls.Keeps.Dialing.{dial-Inv}
use retro_vax_bbs.Phone.Calls.Histories.{
  Run, dials, answers, here, next, Run-Inv, new_calls-Inv, step,
}
use retro_vax_bbs.Phone.Calls.Outcomes.{answered_by, answer_first_wins, reap_frees}
use retro_vax_bbs.Phone.Calls.Engaged.{InCall}
use retro_vax_bbs.Phone.Calls.Refusals.{MayRing, Why, admit_iff, dial_refused}
use retro_vax_bbs.Phone.Calls.Telling.{Reason, Told, reap_tells}
use retro_vax_bbs.Phone.Calls.Reaching.{Rung, ring_sessions-reaches}
use retro_vax_bbs.Registry.Lockstep.{InStep}
use retro_vax_bbs.Registry.Arrivals.{register-InStep}
use retro_vax_bbs.Registry.Histories.{init-InStep}

-- Two sessions, "1" of ALICE and "2" of BOB.
abbrev two_sessions : Registry
two_sessions =
    (register (codes "BOB") (codes "user") false (codes "LOBBY")
      (register (codes "ALICE") (codes "user") false (codes "LOBBY") init).1).1

-- Names are compared as they are.
abbrev as_is : ℕ → ℕ
as_is c = c

abbrev dialed : Calls
dialed = (dial as_is (codes "1") (codes "ALICE") (codes "BOB") 7 (new_calls two_sessions)).0

abbrev dialed_id : Text
dialed_id = call_id (codes "ALICE") (codes "BOB") 7

none_yet : find_call dialed_id (new_calls two_sessions).calls ≡ none
unfolding find_call
none_yet = refl

dialed-Inv : Inv dialed
dialed-Inv =
    dial-Inv as_is (codes "1") (codes "ALICE") (codes "BOB") 7 (new_calls two_sessions)
      (new_calls-Inv two_sessions) none_yet

dialed_answered :
    Run as_is
      (new_calls two_sessions)
      (step as_is (answers dialed_id (codes "2") (codes "BOB")) dialed)
unfolding step find_call
dialed_answered =
    next (answers dialed_id (codes "2") (codes "BOB"))
      (next (dials (codes "1") (codes "ALICE") (codes "BOB") 7) here
        (λ sid caller callee now e. refl))
      (λ sid caller callee now e. absurd cc)

Run-Inv_example :
    (s : Calls) × (step as_is (answers dialed_id (codes "2") (codes "BOB")) dialed ≡ some s) × Inv s
Run-Inv_example =
    Run-Inv as_is two_sessions (step as_is (answers dialed_id (codes "2") (codes "BOB")) dialed)
      dialed_answered

abbrev ringing_call : Call
ringing_call = new_call dialed_id (codes "1") (codes "ALICE") (codes "BOB") 0

ringing : find_call ringing_call.id dialed.calls ≡ some ringing_call
unfolding find_call dial text_discrete connected find register delete init sessions_of
    session_in_call format_uint
ringing = refl

answer_first_wins_example :
    let q = new_participant (codes "BOB") (codes "2") dialed.next_chan in
    (s : Calls) × (answer_call ringing_call.id (codes "2") (codes "BOB") dialed
      ≡ some (s, ok (answered_by q ringing_call, q)))
    × (find_call ringing_call.id s.calls ≡ some (answered_by q ringing_call))
    × ((sid u : Text) → answer_call ringing_call.id sid u s ≡ some (s, err already_answered))
answer_first_wins_example =
    answer_first_wins (codes "2") (codes "BOB") dialed ringing_call dialed-Inv ringing refl

-- The ringing call once every session has gone.
abbrev deserted : Calls
deserted = record dialed { outside = record dialed.outside { reg = init } }

deserted_bob : ringable_sessions (codes "BOB") deserted ≡ []
unfolding ringable_sessions sessions_of find init
deserted_bob = refl

reap_frees_example :
    (s : Calls) × (reap_unreachable_rings (codes "BOB") deserted ≡ some s)
    × (s.calls ≡ without (rings_callee (codes "BOB")) deserted.calls)
    × (s.pending_adds ≡ without (for_user (codes "BOB")) deserted.pending_adds)
    × ((fold : ℕ → ℕ) (caller : Text)
        → admit fold caller (codes "BOB") s ≢ some (being_rung (codes "BOB")))
reap_frees_example = reap_frees (codes "BOB") deserted dialed-Inv deserted_bob

admit_iff_example :
    (admit as_is (codes "ALICE") (codes "BOB") dialed ≡ none)
    ↔ MayRing as_is (codes "ALICE") (codes "BOB") dialed
admit_iff_example = admit_iff as_is (codes "ALICE") (codes "BOB") dialed

self_refused : (dial as_is (codes "1") (codes "ALICE") (codes "ALICE") 8 dialed).1 ≡ err self_call
unfolding dial text_discrete
self_refused = refl

dial_refused_example :
    ((dial as_is (codes "1") (codes "ALICE") (codes "ALICE") 8 dialed).0 ≡ dialed)
    × Why as_is (codes "ALICE") (codes "ALICE") dialed self_call
dial_refused_example =
    dial_refused as_is (codes "1") (codes "ALICE") (codes "ALICE") 8 dialed self_call self_refused

two_sessions-InStep : InStep two_sessions
unfolding init register
two_sessions-InStep =
    register-InStep (codes "BOB") (codes "user") false (codes "LOBBY")
      (register (codes "ALICE") (codes "user") false (codes "LOBBY") init).1
      (register-InStep (codes "ALICE") (codes "user") false (codes "LOBBY") init init-InStep
        (omega arith))
      (omega arith)

bob_indexed : find (codes "2") two_sessions.session_index ≡ some 1
unfolding find register delete init format_uint text_discrete
bob_indexed = refl

abbrev bob_rings : PhoneEvent
bob_rings = ring_event dialed_id (codes "ALICE") (codes "BOB")

ring_sessions-reaches_example :
    (Mem (codes "2") (sessions_of (codes "BOB") two_sessions)
      × (InCall (codes "2") (new_calls two_sessions).calls → ⊥)
      × Rung bob_rings
          (two_sessions.heap 1)
          ((ring_sessions (codes "BOB") bob_rings (new_calls two_sessions)).reg.heap 1))
    ⊎ ((Mem (codes "2") (sessions_of (codes "BOB") two_sessions)
          → (InCall (codes "2") (new_calls two_sessions).calls → ⊥)
          → ⊥)
        × ((ring_sessions (codes "BOB") bob_rings (new_calls two_sessions)).reg.heap 1
            ≡ two_sessions.heap 1))
ring_sessions-reaches_example =
    ring_sessions-reaches (codes "BOB") bob_rings (new_calls two_sessions) (codes "2") 1
      two_sessions-InStep bob_indexed

abbrev alice_online : Registry
alice_online = (register (codes "ALICE") (codes "user") false (codes "LOBBY") init).1

-- The ringing call once BOB has gone.
abbrev bob_left : Calls
bob_left = record dialed { outside = record dialed.outside { reg = alice_online } }

bob_unreachable : ringable_sessions (codes "BOB") bob_left ≡ []
unfolding ringable_sessions sessions_of find register delete init text_discrete
bob_unreachable = refl

alice_indexed : find (codes "1") bob_left.reg.session_index ≡ some 0
unfolding find register delete init format_uint text_discrete
alice_indexed = refl

reap_tells_example :
    (s : Calls) × (t : EventType) × (reap_unreachable_rings (codes "BOB") bob_left ≡ some s)
    × Reason (codes "BOB") bob_left.reg t
    × Told (event t dialed_id (codes "ALICE") (codes "BOB")) (s.reg.heap 0)
reap_tells_example =
    reap_tells (codes "BOB") bob_left ringing_call (new_participant (codes "ALICE") (codes "1") 0)
      [] 0 dialed-Inv bob_unreachable ringing refl refl refl alice_indexed
