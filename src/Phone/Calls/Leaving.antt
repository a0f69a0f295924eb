-- ===== src/Phone/Calls/Leaving.antt =====
-- internal/phone/call.go: Hangup, HangupSession, ReapUnreachableRings and hangupLocked. `none` is a
-- panic.
use retro_vax_bbs.Prelude.{Text, not, Option, none, some, List, [], ◌∷◌, if◌then◌else◌, ◌>>=◌, any}
use retro_vax_bbs.Registry.Event.{PhoneEvent, EventType, hangup, callee_gone, callee_unavailable}
use retro_vax_bbs.Registry.State.{connected, is_empty}
use retro_vax_bbs.Phone.Calls.State.{
  Call, Calls, Outside, Participant, PendingAdd, delete_call, find_call, is_pending, same, set_call,
}
use retro_vax_bbs.Phone.Calls.Channels.{close, notify_account, send, send_each, session_ids}
use retro_vax_bbs.Phone.Calls.Admission.{ringable_sessions, rings_callee}
use retro_vax_bbs.Phone.Calls.Answering.{event}

-- The first participant with the session id, and the others.
unfoldable pub take_out : Text → List Participant → Option (Participant × List Participant)
take_out sid [] = none
take_out sid (p ∷ ps) =
    let rest = take_out sid ps in
    if same p.session_id sid then some (p, ps) else (do (q, qs) ← rest; some (q, p ∷ qs))

-- The loop that stops the conference rings of a call that ends.
unfoldable pub cancel_rings : Text → List PendingAdd → Outside → Option (List PendingAdd × Outside)
unfolding close notify_account
cancel_rings id [] o = some ([], o)
cancel_rings id (a ∷ rest) o =
    let dropped : Option (List PendingAdd × Outside) = (do
      o' ← close a.stop o
      cancel_rings id rest (notify_account a.callee (event hangup id a.inviter a.callee) o')) in
    let kept : Option (List PendingAdd × Outside) = (do
      (as', o') ← cancel_rings id rest o
      some (a ∷ as', o')) in
    if same a.call_id id then dropped else kept

-- The callee of a pending call is told, if there is one.
unfoldable pub tell_callee : Call → Text → Outside → Outside
unfolding notify_account
tell_callee call username o =
    if is_empty call.callee
    then o
    else notify_account call.callee (event hangup call.id username call.callee) o

-- What a pending call does when its caller leaves.
unfoldable pub stop_pending : Call → Text → Outside → Option Outside
unfolding close tell_callee
stop_pending call username o =
    if is_pending call.state
    then (do o' ← close call.stop_ring o; some (tell_callee call username o'))
    else some o

-- The teardown of hangupLocked, once nobody is left in the call.
unfoldable pub tear_down : Call → Text → Calls → Option Calls
unfolding stop_pending cancel_rings
tear_down call username s = do
  o ← stop_pending call username s.outside
  (adds, o') ← cancel_rings call.id s.pending_adds o
  some (record s { calls = delete_call call.id s.calls; pending_adds = adds; outside = o' })

-- hangupLocked after the participant is found.
unfoldable pub leave : Call → Participant → List Participant → Calls → Option Calls
unfolding tear_down close send_each
leave call removed remaining s = do
  let call' = record call { participants = remaining }
  o ← close removed.incoming s.outside
  let told = send_each (session_ids remaining) (event hangup call.id removed.username []) o
  let s' = record s { calls = set_call call' s.calls; outside = told }
  if is_empty remaining then tear_down call' removed.username s' else some s'

-- hangupLocked
unfoldable pub hangup_locked : Call → Text → Calls → Option Calls
unfolding take_out leave
hangup_locked call sid s = elim (take_out sid call.participants) [
  | none ↦ some s
  | some (removed, remaining) ↦ leave call removed remaining s
]

-- Hangup
unfoldable pub hangup_call : Text → Text → Calls → Option Calls
unfolding hangup_locked
hangup_call id sid s = elim (find_call id s.calls) [
  | none ↦ some s
  | some call ↦ hangup_locked call sid s
]

-- The first call that the session is in.
unfoldable pub call_of : Text → List Call → Option Call
call_of sid [] = none
call_of sid (c ∷ cs) =
    if any (λ p. same p.session_id sid) c.participants then some c else call_of sid cs

-- HangupSession
unfoldable pub hangup_session : Text → Calls → Option Calls
unfolding call_of hangup_locked
hangup_session sid s = elim (call_of sid s.calls) [
  | none ↦ some s
  | some call ↦ hangup_locked call sid s
]

-- The loop over the participants of a reaped pending call.
unfoldable pub reap_participants : List Participant → PhoneEvent → Outside → Option Outside
unfolding close
reap_participants [] ev o = some o
reap_participants (p ∷ ps) ev o = do
  o' ← close p.incoming o
  reap_participants ps ev (send p.session_id ev o')

-- The first loop of ReapUnreachableRings.
unfoldable pub reap_calls : Text → EventType → List Call → Outside → Option (List Call × Outside)
unfolding reap_participants
reap_calls username type [] o = some ([], o)
reap_calls username type (c ∷ cs) o =
    let reaped : Option (List Call × Outside) = (do
      o₁ ← close c.stop_ring o
      o₂ ← reap_participants c.participants (event type c.id c.caller username) o₁
      reap_calls username type cs o₂) in
    let kept : Option (List Call × Outside) = (do
      (cs', o') ← reap_calls username type cs o
      some (c ∷ cs', o')) in
    if rings_callee username c then reaped else kept

-- Those whom a reaped conference ring is told to.
unfoldable pub ring_audience : Text → List Call → List Text
ring_audience id calls = elim (find_call id calls) [
  | none ↦ []
  | some call ↦ session_ids call.participants
]

-- The second loop of ReapUnreachableRings.
unfoldable pub reap_adds :
    Text → EventType → List Call → List PendingAdd → Outside → Option (List PendingAdd × Outside)
unfolding ring_audience close send_each
reap_adds username type calls [] o = some ([], o)
reap_adds username type calls (a ∷ rest) o =
    let reaped : Option (List PendingAdd × Outside) = (do
      o' ← close a.stop o
      reap_adds username type calls rest (
          send_each (ring_audience a.call_id calls) (event type a.call_id a.inviter username)
            o')) in
    let kept : Option (List PendingAdd × Outside) = (do
      (as', o') ← reap_adds username type calls rest o
      some (a ∷ as', o')) in
    if same a.callee username then reaped else kept

-- Why the ring can no longer land.
abbrev pub reap_type : Text → Calls → EventType
reap_type username s = if connected username s.reg then callee_unavailable else callee_gone

unfoldable pub reap_all : Text → EventType → Calls → Option Calls
unfolding reap_calls reap_adds
reap_all username type s = do
  (calls, o₁) ← reap_calls username type s.calls s.outside
  (adds, o₂) ← reap_adds username type calls s.pending_adds o₁
  some (record s { calls = calls; pending_adds = adds; outside = o₂ })

-- ReapUnreachableRings
unfoldable pub reap_unreachable_rings : Text → Calls → Option Calls
unfolding reap_all ringable_sessions
reap_unreachable_rings username s =
    if not (is_empty (ringable_sessions username s))
    then some s
    else reap_all username (reap_type username s) s
