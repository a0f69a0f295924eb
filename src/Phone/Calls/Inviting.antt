-- ===== src/Phone/Calls/Inviting.antt =====
-- internal/phone/call.go: Add, its re-ring tick, CancelAdd, BroadcastChar and Participants. `none` is
-- a panic.
use retro_vax_bbs.Prelude.{
  ℕ, ◌+◌, Text, Option, none, some, List, [], ◌∷◌, map, if◌then◌else◌, ◌>>=◌,
}
use retro_vax_bbs.Registry.Event.{hangup, ringing}
use retro_vax_bbs.Phone.Calls.State.{
  Call, CallState, Calls, Chan, Error, Participant, active, delete_add, find_add, find_call, idle,
  not_active, not_found, pending, same,
}
use retro_vax_bbs.Phone.Calls.Channels.{close, notify_account, push, send_each}
use retro_vax_bbs.Phone.Calls.Admission.{admit, new_chan, ring_event, ring_sessions}
use retro_vax_bbs.Phone.Calls.Answering.{event}

-- The sessions of the participants with another username.
unfoldable pub not_named : Text → List Participant → List Text
not_named username [] = []
not_named username (p ∷ ps) =
    if same p.username username then not_named username ps else p.session_id ∷ not_named username ps

-- The body of a re-ring: the callee's sessions, and an advisory to the other participants.
unfoldable pub ring_and_tell : Call → Text → Text → Text → Calls → Calls
unfolding ring_sessions not_named send_each
ring_and_tell call id caller callee s =
    let s' = ring_sessions callee (ring_event id caller callee) s in
    record s' {
      outside =
          send_each (not_named caller call.participants) (event ringing id caller callee)
            s'.outside;
    }

-- The table once Add has entered the ring.
abbrev pub invited : Text → Text → Text → Calls → Calls
invited id caller callee s = record s {
  pending_adds =
      record { call_id = id; callee = callee; stop = s.next_chan; inviter = caller }
      ∷ delete_add id callee s.pending_adds;
  outside = record s.outside { chans = new_chan s.next_chan ∷ s.chans };
  next_chan = s.next_chan + 1;
}

-- Add, by the state of the call that it found: the error that it returns, if any.
unfoldable pub add_in :
    (ℕ → ℕ) → CallState → Call → Text → Text → Text → Calls → Calls × Option Error
unfolding admit ring_and_tell
add_in fold active call id caller callee s = elim (admit fold caller callee s) [
  | some e ↦ (s, some e)
  | none ↦ (ring_and_tell call id caller callee (invited id caller callee s), none)
]
add_in fold pending call id caller callee s = (s, some (not_active id))
add_in fold idle call id caller callee s = (s, some (not_active id))

-- Add
unfoldable pub add : (ℕ → ℕ) → Text → Text → Text → Calls → Calls × Option Error
unfolding add_in
add fold id caller callee s = elim (find_call id s.calls) [
  | none ↦ (s, some (not_found id))
  | some call ↦ add_in fold call.state call id caller callee s
]

-- The tick of Add's goroutine.
unfoldable pub add_tick : Text → Text → Text → Calls → Calls
unfolding ring_and_tell
add_tick id caller callee s = elim (find_call id s.calls) [
  | none ↦ s
  | some call ↦ ring_and_tell call id caller callee s
]

-- The first part of CancelAdd: the ring stops, if there is one.
unfoldable pub stop_add : Text → Text → Calls → Option Calls
unfolding close
stop_add id callee s = elim (find_add id callee s.pending_adds) [
  | none ↦ some s
  | some ring ↦ do
    o ← close ring.stop s.outside
    some (record s { pending_adds = delete_add id callee s.pending_adds; outside = o })
]

-- The rest of CancelAdd: the callee and the other participants are told.
unfoldable pub tell_cancelled : Text → Text → Text → Calls → Calls
unfolding notify_account not_named send_each
tell_cancelled id callee caller s =
    let o = notify_account callee (event hangup id caller callee) s.outside in
    elim (find_call id s.calls) [
      | none ↦ record s { outside = o }
      | some call ↦ record s {
        outside = send_each (not_named caller call.participants) (event hangup id caller callee) o;
      }
    ]

-- CancelAdd
unfoldable pub cancel_add : Text → Text → Text → Calls → Option Calls
unfolding stop_add tell_cancelled
cancel_add id callee caller s = do
  stopped ← stop_add id callee s
  some (tell_cancelled id callee caller stopped)

-- The loop of BroadcastChar.
unfoldable pub type_to : List Participant → Text → ℕ → List Chan → Option (List Chan)
unfolding push
type_to [] sender r cs = some cs
type_to (p ∷ ps) sender r cs =
    let told : Option (List Chan) = (do
      cs' ← push p.incoming (record { r = r; sender = sender }) cs
      type_to ps sender r cs') in
    let skipped : Option (List Chan) = type_to ps sender r cs in
    if same p.username sender then skipped else told

-- BroadcastChar
unfoldable pub broadcast_char : Text → Text → ℕ → Calls → Option Calls
unfolding type_to
broadcast_char id sender r s = elim (find_call id s.calls) [
  | none ↦ some s
  | some call ↦ do
    cs ← type_to call.participants sender r s.chans
    some (record s { outside = record s.outside { chans = cs } })
]

-- Participants
unfoldable pub participants : Text → Calls → List Text
participants id s = elim (find_call id s.calls) [
  | none ↦ []
  | some call ↦ map (λ p. p.username) call.participants
]
