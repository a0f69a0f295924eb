-- ===== src/Phone/Calls/Keeps/Leaving.antt =====
-- internal/phone/call.go: Hangup, HangupSession and the soundness of the call table.
use retro_vax_bbs.Prelude.{
  ℕ, ◌+◌, ◌≤◌, ◌≡◌, ◌≢◌, ap, Text, false, some, List, [], ◌∷◌, arith, one_at, one_at_self, length,
  suc, Option-cases, Bool-cases, inl, inr,
}
use retro_vax_bbs.Registry.Event.{hangup}
use retro_vax_bbs.Registry.State.{is_empty}
use retro_vax_bbs.Phone.Calls.State.{
  Call, Calls, Outside, Participant, PendingAdd, active, delete_call, find_call, set_call,
}
use retro_vax_bbs.Phone.Calls.Channels.{close, close_open, send_each, chans-send_each, session_ids}
use retro_vax_bbs.Phone.Calls.Answering.{event}
use retro_vax_bbs.Phone.Calls.Leaving.{
  call_of, cancel_rings, hangup_call, hangup_locked, hangup_session, leave, stop_pending, take_out,
  tear_down,
}
use retro_vax_bbs.Phone.Calls.Tables.{
  Distinct, total, total-delete_call, total-set_call, total-without-le, without, All-delete_call,
  All-find_call, All-map, All-set_call, All-without, Distinct-delete_call, Distinct-set_call,
  find_call_here, delete-set_call, find-delete_call_ne, find-set_call_ne, find-set_call_self,
}
use retro_vax_bbs.Phone.Calls.Invariant.{
  Backed, Inv, Shaped, Sound, Stays, Stays-bind, active-Shape, at_stop, holds, incoming_of, invites,
  opened, rings,
}
use retro_vax_bbs.Phone.Calls.Keeps.Answering.{set_call-Backed}
use retro_vax_bbs.Phone.Calls.Keeps.Teardown.{
  for_call, cancel_rings_open, ring_of, stop_pending_open, take_out-some, take_out-length,
  active_of_two, is_empty_nil, not_empty_length,
}

-- The call without a participant, and the sums over the table once it has replaced the call.
module _ (call : Call) (s : Calls) (v : Inv s) (here : find_call call.id s.calls ≡ some call)
    (p : Participant) (rest : List Participant)
    (split : (k : ℕ) → incoming_of k call.participants ≡ one_at k p.incoming + incoming_of k rest)
    (one_less : length call.participants ≡ suc (length rest)) where
  removed_open : 1 ≤ opened p.incoming s.chans
  removed_open = omega (
    arith,
    v.owned p.incoming,
    total-delete_call (holds p.incoming) call.id s.calls call here,
    split p.incoming,
    one_at_self p.incoming,
  )

  smaller : Call
  smaller = record call { participants = rest }

  -- The call goes on.
  remaining-Sound :
      (o : Outside)
      → call.state ≡ active
      → 1 ≤ length rest
      → ((k : ℕ) → opened k s.chans ≡ one_at k p.incoming + opened k o.chans)
      → Sound (set_call smaller s.calls) s.pending_adds o.chans s.next_chan
  unfolding smaller
  remaining-Sound o act some_left shut = record {
    owned = λ k.
        omega
          (arith, shut k, v.owned k, split k, total-set_call (holds k) smaller s.calls call here);
    single = λ k. omega (arith, shut k, v.single k);
    fresh = λ k le. omega (arith, shut k, v.fresh k le);
    shaped =
        All-set_call Shaped smaller s.calls (active-Shape call.state call.caller rest act some_left)
          v.shaped;
    distinct = Distinct-set_call smaller s.calls v.distinct;
    backed =
        All-map (Backed s.calls) _ (set_call-Backed smaller call s.calls here act) s.pending_adds
          v.backed;
    one_ring = λ w. omega (arith, v.one_ring w, total-set_call (rings w) smaller s.calls call here);
  }

  -- The call ends, and its conference rings with it.
  ended-Backed :
      (a : PendingAdd)
      → Backed s.calls a × (for_call call.id a ≡ false)
      → Backed (delete_call call.id (set_call smaller s.calls)) a
  unfolding smaller
  ended-Backed a (b, other) =
      let apart : call.id ≢ a.call_id = λ e. ground arith in
      rw
        (
          find-delete_call_ne call.id a.call_id (set_call smaller s.calls) apart,
          find-set_call_ne smaller a.call_id s.calls apart,
        )
        b

  ended-Sound :
      (o : Outside)
      → rest ≡ []
      → ((k : ℕ)
          → opened k s.chans + total (at_stop k) (without (for_call call.id) s.pending_adds)
            ≡ one_at k p.incoming
              + ring_of k call
              + total (at_stop k) s.pending_adds
              + opened k o.chans)
      → Sound
          (delete_call call.id (set_call smaller s.calls))
          (without (for_call call.id) s.pending_adds)
          o.chans
          s.next_chan
  unfolding smaller
  ended-Sound o gone shut = record {
    owned = λ k. omega (
      arith,
      shut k,
      v.owned k,
      split k,
      ap (incoming_of k) gone,
      total-set_call (holds k) smaller s.calls call here,
      total-delete_call (holds k) call.id (set_call smaller s.calls) smaller
          (find-set_call_self smaller call s.calls here),
    );
    single = λ k.
        omega (
          arith,
          shut k,
          v.single k,
          total-without-le (at_stop k) (for_call call.id) s.pending_adds,
        );
    fresh = λ k le. omega (
      arith,
      shut k,
      v.fresh k le,
      total-without-le (at_stop k) (for_call call.id) s.pending_adds,
    );
    shaped = rw (delete-set_call smaller s.calls) (All-delete_call Shaped call.id s.calls v.shaped);
    distinct =
        Distinct-delete_call call.id (set_call smaller s.calls)
          (Distinct-set_call smaller s.calls v.distinct);
    backed =
        All-map _ _ ended-Backed (without (for_call call.id) s.pending_adds)
          (All-without (Backed s.calls) (for_call call.id) s.pending_adds v.backed);
    one_ring = λ w. omega (
      arith,
      v.one_ring w,
      total-without-le (invites w) (for_call call.id) s.pending_adds,
      total-set_call (rings w) smaller s.calls call here,
      total-delete_call (rings w) call.id (set_call smaller s.calls) smaller
          (find-set_call_self smaller call s.calls here),
    );
  }

  tear_down-Stays :
      (o : Outside)
      → rest ≡ []
      → ((k : ℕ) → opened k s.chans ≡ one_at k p.incoming + opened k o.chans)
      → Stays (
          tear_down smaller p.username (record s { calls = set_call smaller s.calls; outside = o }))
  unfolding tear_down smaller
  tear_down-Stays o gone shut =
      let st = stop_pending_open smaller p.username o (λ k. omega (
        arith,
        shut k,
        v.owned k,
        split k,
        total-delete_call (holds k) call.id s.calls call here,
      )) in
      let cr = cancel_rings_open call.id s.pending_adds st.0 (λ k. omega (
        arith,
        shut k,
        st.2 k,
        v.owned k,
        split k,
        total-delete_call (holds k) call.id s.calls call here,
      )) in
      Stays-bind (stop_pending smaller p.username o) _ st.1 (
        Stays-bind (cancel_rings call.id s.pending_adds st.0) _ cr.1
          (ended-Sound cr.0 gone (λ k. omega (arith, shut k, st.2 k, cr.2 k))))

  leave-Stays : Stays (leave call p rest s)
  unfolding leave smaller
  leave-Stays =
      let c = close_open p.incoming s.outside removed_open in
      let told = send_each (session_ids rest) (event hangup call.id p.username []) c.0 in
      let shut : (k : ℕ) → opened k s.chans ≡ one_at k p.incoming + opened k told.chans =
        λ k. rw chans-send_each (c.3 k) in
      Stays-bind (close p.incoming s.outside) _ c.1 (elim (Bool-cases (is_empty rest)) [
        | inl e ↦ rw e (tear_down-Stays told (is_empty_nil rest e) shut)
        | inr e ↦ rw e (
            remaining-Sound told
              (active_of_two call.state call.caller call.participants
                (All-find_call Shaped call.id s.calls call here v.shaped)
                (omega (arith, one_less, not_empty_length rest e)))
              (not_empty_length rest e) shut)
      ])

hangup_locked-Stays :
    (call : Call) (sid : Text) (s : Calls)
    → Inv s
    → find_call call.id s.calls ≡ some call
    → Stays (hangup_locked call sid s)
unfolding hangup_locked
hangup_locked-Stays call sid s v here = elim (Option-cases (take_out sid call.participants)) [
  | inl e ↦ rw (e, hangup_locked) v
  | inr ((p, rest), e) ↦
      rw (e, hangup_locked)
        (leave-Stays call s v here p rest (take_out-some sid call.participants p rest e)
          (take_out-length sid call.participants p rest e))
]

-- Hangup panics on no sound table and keeps it sound.
pub hangup_call-Stays : (id sid : Text) (s : Calls) → Inv s → Stays (hangup_call id sid s)
unfolding hangup_call
hangup_call-Stays id sid s v = elim (Option-cases (find_call id s.calls)) [
  | inl e ↦ rw (e, hangup_call) v
  | inr (call, e) ↦
      rw (e, hangup_call) (hangup_locked-Stays call sid s v (find_call_here id s.calls call e))
]

-- A call that stands in the table is found under its id.
pub call_of_here :
    (sid : Text) (cs : List Call) (c : Call)
    → Distinct cs
    → call_of sid cs ≡ some c
    → find_call c.id cs ≡ some c
unfolding call_of find_call
call_of_here sid [] c d e = cc
call_of_here sid (x ∷ cs) c d e = ground (arith, call_of_here sid cs c d.1)

-- HangupSession panics on no sound table and keeps it sound.
pub hangup_session-Stays : (sid : Text) (s : Calls) → Inv s → Stays (hangup_session sid s)
unfolding hangup_session
hangup_session-Stays sid s v = elim (Option-cases (call_of sid s.calls)) [
  | inl e ↦ rw (e, hangup_session) v
  | inr (call, e) ↦
      rw (e, hangup_session)
        (hangup_locked-Stays call sid s v (call_of_here sid s.calls call v.distinct e))
]
