-- ===== src/Phone/Calls/Admission.antt =====
-- internal/phone/call.go: who may be rung (admitLocked and its helpers), Dial, and the re-ring tick.
-- `fold` maps a code point to one that stands for its class under Unicode's simple case folding, the
-- table that strings.EqualFold consults. The clock's reading is an argument.
use retro_vax_bbs.Prelude.{
  ℕ, ◌+◌, Text, codes, Bool, ◌&&◌, not, Option, none, some, List, [], ◌∷◌, ◌++◌, map, any,
  if◌then◌else◌,
}
use retro_vax_bbs.Registry.Decimal.{format_uint}
use retro_vax_bbs.Registry.Event.{PhoneEvent, ring}
use retro_vax_bbs.Registry.State.{connected, sessions_of, is_empty}
use retro_vax_bbs.Phone.Calls.State.{
  Call, Calls, Chan, Error, Participant, PendingAdd, Result, being_rung, busy, err, find_call,
  delete_call, is_pending, not_connected, ok, pending, same, self_call,
}
use retro_vax_bbs.Phone.Calls.Channels.{send_each}

-- strings.EqualFold
abbrev pub equal_fold : (ℕ → ℕ) → Text → Text → Bool
equal_fold fold a b = same (map fold a) (map fold b)

-- sessionInCallLocked
unfoldable pub session_in_call : Text → List Call → Bool
session_in_call sid calls = any (λ call. any (λ p. same p.session_id sid) call.participants) calls

unfoldable pub keep_idle : List Text → List Call → List Text
keep_idle [] calls = []
keep_idle (sid ∷ sids) calls =
    if not (session_in_call sid calls) then sid ∷ keep_idle sids calls else keep_idle sids calls

-- ringableSessionsLocked
unfoldable pub ringable_sessions : Text → Calls → List Text
unfolding keep_idle
ringable_sessions username s = keep_idle (sessions_of username s.reg) s.calls

-- The two loops of the being-rung check.
abbrev pub rings_callee : Text → Call → Bool
rings_callee callee call = is_pending call.state && same call.callee callee

unfoldable pub has_pending_dial : Text → List Call → Bool
has_pending_dial callee calls = any (rings_callee callee) calls

unfoldable pub has_pending_add : Text → List PendingAdd → Bool
has_pending_add callee adds = any (λ a. same a.callee callee) adds

-- admitLocked: `none` where the ring is allowed.
unfoldable pub admit : (ℕ → ℕ) → Text → Text → Calls → Option Error
unfolding has_pending_dial has_pending_add ringable_sessions
admit fold caller callee s =
    if equal_fold fold caller callee
    then some self_call
    else if not (connected callee s.reg)
    then some (not_connected callee)
    else if has_pending_dial callee s.calls
    then some (being_rung callee)
    else if has_pending_add callee s.pending_adds
    then some (being_rung callee)
    else if is_empty (ringable_sessions callee s)
    then some (busy callee)
    else none

-- ringLocked
unfoldable pub ring_sessions : Text → PhoneEvent → Calls → Calls
unfolding ringable_sessions send_each
ring_sessions callee event s = record s {
  outside = send_each (ringable_sessions callee s) event s.outside;
}

-- fmt.Sprintf("%s->%s@%d", callerUsername, calleeUsername, time.Now().UnixNano())
abbrev pub call_id : Text → Text → ℕ → Text
call_id caller callee now = caller ++ (codes "->" ++ (callee ++ (codes "@" ++ format_uint now)))

abbrev pub ring_event : Text → Text → Text → PhoneEvent
ring_event id caller callee = record { type = ring; call_id = id; caller = caller; callee = callee }

abbrev pub new_chan : ℕ → Chan
new_chan h = record { handle = h; buffer = [] }

abbrev pub new_participant : Text → Text → ℕ → Participant
new_participant username sid h = record { username = username; session_id = sid; incoming = h }

abbrev pub new_call : Text → Text → Text → Text → ℕ → Call
new_call id sid caller callee h = record {
  id = id;
  state = pending;
  caller = caller;
  callee = callee;
  participants = new_participant caller sid h ∷ [];
  stop_ring = h + 1;
}

-- The table once Dial has entered the call, before it rings.
abbrev pub entered : Text → Text → Text → Text → Calls → Calls
entered id sid caller callee s = record s {
  calls = new_call id sid caller callee s.next_chan ∷ delete_call id s.calls;
  outside = record s.outside {
    chans = new_chan s.next_chan ∷ new_chan (s.next_chan + 1) ∷ s.chans;
  };
  next_chan = s.next_chan + 2;
}

-- Dial
unfoldable pub dial : (ℕ → ℕ) → Text → Text → Text → ℕ → Calls → Calls × Result (Call × Participant)
unfolding admit ring_sessions
dial fold sid caller callee now s = elim (admit fold caller callee s) [
  | some e ↦ (s, err e)
  | none ↦
      let id = call_id caller callee now in
      (
        ring_sessions callee (ring_event id caller callee) (entered id sid caller callee s),
        ok (new_call id sid caller callee s.next_chan, new_participant caller sid s.next_chan),
      )
]

-- The ring goroutine's tick: it rings again while the call exists.
unfoldable pub dial_tick : Text → Text → Text → Calls → Calls
unfolding ring_sessions
dial_tick id caller callee s = elim (find_call id s.calls) [
  | none ↦ s
  | some call ↦ ring_sessions callee (ring_event id caller callee) s
]
