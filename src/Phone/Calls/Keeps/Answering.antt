-- ===== src/Phone/Calls/Keeps/Answering.antt =====
-- internal/phone/call.go: Answer and the soundness of the call table.
use retro_vax_bbs.Prelude.{
  ℕ, ◌+◌, ◌≤◌, ◌≡◌, refl, Text, text_discrete, some, List, [], ◌∷◌, arith, one_at, one_at_self,
  Option-cases, inl, inr, length-append, subst,
}
use retro_vax_bbs.Phone.Calls.State.{
  Call, CallState, Calls, Outside, Participant, PendingAdd, active, delete_add, find_add, find_call,
  idle, pending, set_call,
}
use retro_vax_bbs.Phone.Calls.Channels.{close, close_open, chans-send_each}
use retro_vax_bbs.Phone.Calls.Admission.{new_participant, new_chan}
use retro_vax_bbs.Phone.Calls.Answering.{
  answer_call, answer_in, answer_pending, first, join_conference, joined,
}
use retro_vax_bbs.Phone.Calls.Tables.{
  total-set_call, total-delete_call, total-delete_add, All-map, All-set_call, All-delete_add,
  All-find_call, Distinct-set_call, find_call-id, find_call_here, find-set_call_self,
  find-set_call_ne,
}
use retro_vax_bbs.Phone.Calls.Invariant.{
  Backed, Inv, Keeps, Keeps-bind, active-Shape, Shaped, Sound, at_stop, holds, invites,
  new_chan_single, holds_pending, pending-Shape, one_at_above, opened, rings, total-append,
}

-- A call that is replaced by an active one of the same id keeps every conference ring backed.
pub set_call-Backed :
    (d c : Call) (cs : List Call)
    → find_call d.id cs ≡ some c
    → d.state ≡ active
    → (a : PendingAdd) → Backed cs a
    → Backed (set_call d cs) a
set_call-Backed d c cs e act a b = elim (text_discrete d.id a.call_id) [
  | yes p ↦ rw (← p, find-set_call_self d c cs e) (ground arith)
  | no n ↦ rw (find-set_call_ne d a.call_id cs n) b
]

-- The open channel of an outstanding conference ring.
pub add_stop_open :
    (id u : Text) (s : Calls) (a : PendingAdd)
    → Inv s
    → find_add id u s.pending_adds ≡ some a
    → 1 ≤ opened a.stop s.chans
add_stop_open id u s a v e = omega (
  arith,
  v.owned a.stop,
  total-delete_add (at_stop a.stop) id u s.pending_adds a e,
  one_at_self a.stop,
)

holds-joined :
    (k : ℕ) (call : Call) (sid u : Text) (h : ℕ)
    → holds k (joined call sid u h) ≡ holds k call + one_at k h
holds-joined k call sid u h = omega (
  arith,
  total-append (λ (p : Participant). one_at k p.incoming) call.participants
      (new_participant u sid h ∷ []),
)

module _ (call : Call) (sid u : Text) (s : Calls) (v : Inv s)
    (here : find_call call.id s.calls ≡ some call) (act : call.state ≡ active) (ring : PendingAdd)
    (found : find_add call.id u s.pending_adds ≡ some ring) where
  joined_call : Call
  joined_call = joined call sid u s.next_chan

  join_chans :
      (o : Outside)
      → ((k : ℕ) → opened k s.chans ≡ one_at k ring.stop + opened k o.chans)
      → Sound
          (set_call (joined call sid u s.next_chan) s.calls)
          (delete_add call.id u s.pending_adds)
          (new_chan s.next_chan ∷ o.chans)
          (s.next_chan + 1)
  join_chans o shut = record {
    owned = λ k. omega (
      arith,
      shut k,
      v.owned k,
      total-delete_add (at_stop k) call.id u s.pending_adds ring found,
      total-set_call (holds k) (joined call sid u s.next_chan) s.calls call here,
      holds-joined k call sid u s.next_chan,
    );
    single = λ k.
        new_chan_single k s.next_chan o.chans (omega (arith, shut k, v.single k))
          (λ le. omega (arith, shut k, v.fresh k le));
    fresh = λ k le. ground (arith, shut k, v.fresh k, one_at_above k s.next_chan);
    shaped =
        All-set_call Shaped (joined call sid u s.next_chan) s.calls
          (active-Shape call.state call.caller _ act (
            omega
              (arith, length-append call.participants (new_participant u sid s.next_chan ∷ []))))
          v.shaped;
    distinct = Distinct-set_call (joined call sid u s.next_chan) s.calls v.distinct;
    backed =
        All-map (Backed s.calls) _
          (set_call-Backed (joined call sid u s.next_chan) call s.calls here act) _
          (All-delete_add (Backed s.calls) call.id u s.pending_adds v.backed);
    one_ring = λ w. omega (
      arith,
      v.one_ring w,
      total-delete_add (invites w) call.id u s.pending_adds ring found,
      total-set_call (rings w) (joined call sid u s.next_chan) s.calls call here,
    );
  }

  join-Keeps : Keeps (join_conference call call.id sid u s)
  unfolding join_conference
  join-Keeps =
      let c = close_open ring.stop s.outside (add_stop_open call.id u s ring v found) in
      rw (found, join_conference)
        (Keeps-bind (close ring.stop s.outside) _ c.1 (rw chans-send_each (join_chans c.0 c.3)))

-- The open stop channel of a call that rings.
pub stop_ring_open :
    (call : Call) (s : Calls)
    → Inv s
    → find_call call.id s.calls ≡ some call
    → call.state ≡ pending
    → 1 ≤ opened call.stop_ring s.chans
stop_ring_open call s v here st = omega (
  arith,
  v.owned call.stop_ring,
  total-delete_call (holds call.stop_ring) call.id s.calls call here,
  holds_pending call.stop_ring call st,
  one_at_self call.stop_ring,
)

abbrev answered : Call → Text → Text → ℕ → Call
answered call sid u h = record (joined call sid u h) { state = active }

holds-answered :
    (k : ℕ) (call : Call) (sid u : Text) (h : ℕ)
    → call.state ≡ pending
    → one_at k call.stop_ring + holds k (answered call sid u h) ≡ holds k call + one_at k h
holds-answered k call sid u h st = omega (
  arith,
  holds_pending k call st,
  total-append (λ (p : Participant). one_at k p.incoming) call.participants
      (new_participant u sid h ∷ []),
)

module _ (call : Call) (sid u : Text) (s : Calls) (v : Inv s)
    (here : find_call call.id s.calls ≡ some call) (st : call.state ≡ pending) where
  answer_chans :
      (o : Outside)
      → ((k : ℕ) → opened k s.chans ≡ one_at k call.stop_ring + opened k o.chans)
      → Sound
          (set_call (answered call sid u s.next_chan) s.calls)
          s.pending_adds
          (new_chan s.next_chan ∷ o.chans)
          (s.next_chan + 1)
  answer_chans o shut = record {
    owned = λ k. omega (
      arith,
      shut k,
      v.owned k,
      total-set_call (holds k) (answered call sid u s.next_chan) s.calls call here,
      holds-answered k call sid u s.next_chan st,
    );
    single = λ k.
        new_chan_single k s.next_chan o.chans (omega (arith, shut k, v.single k))
          (λ le. omega (arith, shut k, v.fresh k le));
    fresh = λ k le. ground (arith, shut k, v.fresh k, one_at_above k s.next_chan);
    shaped =
        All-set_call Shaped (answered call sid u s.next_chan) s.calls
          (omega (arith, length-append call.participants (new_participant u sid s.next_chan ∷ [])))
          v.shaped;
    distinct = Distinct-set_call (answered call sid u s.next_chan) s.calls v.distinct;
    backed =
        All-map (Backed s.calls) _
          (set_call-Backed (answered call sid u s.next_chan) call s.calls here refl) s.pending_adds
          v.backed;
    one_ring = λ w. omega (
      arith,
      v.one_ring w,
      total-set_call (rings w) (answered call sid u s.next_chan) s.calls call here,
    );
  }

  answer_pending-Keeps : Keeps (answer_pending call call.id sid u s)
  unfolding answer_pending
  answer_pending-Keeps =
      let p =
        pending-Shape call.state call.caller call.participants st
          (All-find_call Shaped call.id s.calls call here v.shaped) in
      let c = close_open call.stop_ring s.outside (stop_ring_open call s v here st) in
      Keeps-bind (first call.participants) _ p.1 (
        Keeps-bind (close call.stop_ring s.outside) _ c.1
          (rw chans-send_each (answer_chans c.0 c.3)))

answer_in-Keeps :
    (st : CallState) (call : Call) (sid u : Text) (s : Calls)
    → Inv s
    → find_call call.id s.calls ≡ some call
    → call.state ≡ st
    → Keeps (answer_in st call call.id sid u s)
unfolding answer_in
answer_in-Keeps pending call sid u s v here st = answer_pending-Keeps call sid u s v here st
answer_in-Keeps active call sid u s v here st =
    elim (Option-cases (find_add call.id u s.pending_adds)) [
      | inl e ↦ unfold join_conference in rw (e, join_conference) v
      | inr (ring, e) ↦ join-Keeps call sid u s v here st ring e
    ]
answer_in-Keeps idle call sid u s v here st = v

-- Answer panics on no sound table and keeps it sound, whatever it answers.
pub answer_call-Keeps : (id sid u : Text) (s : Calls) → Inv s → Keeps (answer_call id sid u s)
unfolding answer_call
answer_call-Keeps id sid u s v = elim (Option-cases (find_call id s.calls)) [
  | inl e ↦ rw (e, answer_call) v
  | inr (call, e) ↦
      rw (e, answer_call)
        (subst (λ i. Keeps (answer_in call.state call i sid u s)) (find_call-id id s.calls call e)
          (answer_in-Keeps call.state call sid u s v (find_call_here id s.calls call e) refl))
]
