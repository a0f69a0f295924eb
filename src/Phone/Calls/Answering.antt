-- ===== src/Phone/Calls/Answering.antt =====
-- internal/phone/call.go: Answer and Reject. `none` is a panic.
use retro_vax_bbs.Prelude.{
  ℕ, ◌+◌, Text, Option, none, some, List, [], ◌∷◌, ◌++◌, if◌then◌else◌, ◌>>=◌,
}
use retro_vax_bbs.Registry.Event.{PhoneEvent, EventType, answer, reject, answer_elsewhere}
use retro_vax_bbs.Registry.State.{sessions_of}
use retro_vax_bbs.Phone.Calls.State.{
  Call, CallState, Calls, Error, Outside, Participant, Result, active, already_answered, delete_add,
  delete_call, err, find_add, find_call, idle, not_found, not_rejectable, ok, pending, same,
  set_call, unexpected_state,
}
use retro_vax_bbs.Phone.Calls.Channels.{close, send, send_each, session_ids}
use retro_vax_bbs.Phone.Calls.Admission.{new_chan, new_participant}

-- The sessions of a list other than one.
unfoldable pub others : Text → List Text → List Text
others sid [] = []
others sid (t ∷ ts) = if same t sid then others sid ts else t ∷ others sid ts

abbrev pub event : EventType → Text → Text → Text → PhoneEvent
event type id caller callee = record { type = type; call_id = id; caller = caller; callee = callee }

abbrev pub joined : Call → Text → Text → ℕ → Call
joined call sid username h = record call {
  participants = call.participants ++ new_participant username sid h ∷ [];
}

abbrev pub with_chan : ℕ → Outside → Outside
with_chan h o = record o { chans = new_chan h ∷ o.chans }

abbrev pub Reply : Type 0
Reply = Calls × Result (Call × Participant)

-- The CallActive branch of Answer: joining a conference takes an ADD invite.
unfoldable pub join_conference : Call → Text → Text → Text → Calls → Option Reply
unfolding others close send_each
join_conference call id sid username s = elim (find_add id username s.pending_adds) [
  | none ↦ some (s, err already_answered)
  | some ring ↦ do
    o ← close ring.stop s.outside
    let call' = joined call sid username s.next_chan
    some (
      record s {
        calls = set_call call' s.calls;
        pending_adds = delete_add id username s.pending_adds;
        outside =
            send_each (others sid (session_ids call'.participants))
              (event answer id call.caller username) (with_chan s.next_chan o);
        next_chan = s.next_chan + 1;
      },
      ok (call', new_participant username sid s.next_chan),
    )
]

-- call.participants[0], which panics on an empty list.
unfoldable pub first : List Participant → Option Participant
first [] = none
first (p ∷ ps) = some p

-- The CallPending branch of Answer.
unfoldable pub answer_pending : Call → Text → Text → Text → Calls → Option Reply
unfolding others close send_each
answer_pending call id sid username s = do
  caller ← first call.participants
  o ← close call.stop_ring s.outside
  let call' = record (joined call sid username s.next_chan) { state = active }
  let told = send caller.session_id (event answer id call.caller username) (with_chan s.next_chan o)
  some (
    record s {
      calls = set_call call' s.calls;
      outside =
          send_each (others sid (sessions_of username told.reg))
            (event answer_elsewhere id call.caller username) told;
      next_chan = s.next_chan + 1;
    },
    ok (call', new_participant username sid s.next_chan),
  )

-- Answer, by the state of the call that it found.
unfoldable pub answer_in : CallState → Call → Text → Text → Text → Calls → Option Reply
unfolding join_conference answer_pending
answer_in active call id sid username s = join_conference call id sid username s
answer_in pending call id sid username s = answer_pending call id sid username s
answer_in idle call id sid username s = some (s, err (unexpected_state id))

-- Answer
unfoldable pub answer_call : Text → Text → Text → Calls → Option Reply
unfolding answer_in
answer_call id sid username s = elim (find_call id s.calls) [
  | none ↦ some (s, err (not_found id))
  | some call ↦ answer_in call.state call id sid username s
]

-- The loop that closes each participant's IncomingChar.
unfoldable pub close_each : List Participant → Outside → Option Outside
unfolding close
close_each [] o = some o
close_each (p ∷ ps) o = do o' ← close p.incoming o; close_each ps o'

-- The CallActive branch of Reject.
unfoldable pub decline_invite : Call → Text → Text → Calls → Option (Calls × Option Error)
unfolding close send_each
decline_invite call id username s =
    let told = λ (o : Outside).
      send_each (session_ids call.participants)
        (record { type = reject; call_id = id; caller = []; callee = username }) o in
    elim (find_add id username s.pending_adds) [
      | none ↦ some (record s { outside = told s.outside }, none)
      | some ring ↦ do
        o ← close ring.stop s.outside
        some (
          record s { pending_adds = delete_add id username s.pending_adds; outside = told o },
          none,
        )
    ]

-- The CallPending branch of Reject.
unfoldable pub reject_pending : Call → Text → Text → Calls → Option (Calls × Option Error)
unfolding first close close_each
reject_pending call id username s = do
  caller ← first call.participants
  o ← close call.stop_ring s.outside
  o' ← close_each call.participants o
  some (
    record s {
      calls = delete_call id s.calls;
      outside = send caller.session_id (event reject id call.caller username) o';
    },
    none,
  )

-- Reject, by the state of the call that it found.
unfoldable pub reject_in : CallState → Call → Text → Text → Calls → Option (Calls × Option Error)
unfolding decline_invite reject_pending
reject_in active call id username s = decline_invite call id username s
reject_in pending call id username s = reject_pending call id username s
reject_in idle call id username s = some (s, some (not_rejectable id))

-- Reject: the error that it returns, if any.
unfoldable pub reject_call : Text → Text → Calls → Option (Calls × Option Error)
unfolding reject_in
reject_call id username s = elim (find_call id s.calls) [
  | none ↦ some (s, some (not_found id))
  | some call ↦ reject_in call.state call id username s
]
