-- ===== src/Phone/Calls/Keeps/Rejecting.antt =====
-- internal/phone/call.go: Reject and the soundness of the call table.
use retro_vax_bbs.Prelude.{
  ℕ, ◌+◌, ◌≤◌, ◌≡◌, refl, Text, text_discrete, some, List, [], ◌∷◌, arith, one_at, one_at_self,
  Option-cases, inl, inr, subst,
}
use retro_vax_bbs.Phone.Calls.State.{
  Call, CallState, Calls, Outside, Participant, PendingAdd, active, delete_add, delete_call,
  find_add, find_call, idle, pending,
}
use retro_vax_bbs.Phone.Calls.Channels.{close, close_open, chans-send_each}
use retro_vax_bbs.Phone.Calls.Answering.{
  close_each, decline_invite, first, reject_call, reject_in, reject_pending,
}
use retro_vax_bbs.Phone.Calls.Tables.{
  total-delete_add, total-delete_call, All-map, All-delete_add, All-delete_call, All-find_call,
  Distinct-delete_call, find_call-id, find_call_here, find-delete_call_ne,
}
use retro_vax_bbs.Phone.Calls.Invariant.{
  Backed, Inv, Keeps, Keeps-bind, Shaped, Sound, at_stop, holds, holds_pending, incoming_of,
  invites, opened, pending-Shape, rings,
}
use retro_vax_bbs.Phone.Calls.Keeps.Answering.{add_stop_open, stop_ring_open}

-- Closing the channels of some participants, each of which is open.
pub close_each_open :
    (ps : List Participant) (o : Outside)
    → ((k : ℕ) → incoming_of k ps ≤ opened k o.chans)
    → (o' : Outside) × (close_each ps o ≡ some o')
      × ((k : ℕ) → opened k o.chans ≡ incoming_of k ps + opened k o'.chans)
unfolding close_each
close_each_open [] o le = (o, refl, λ k. omega arith)
close_each_open (p ∷ ps) o le =
    let c = close_open p.incoming o (omega (arith, le p.incoming, one_at_self p.incoming)) in
    let ih = close_each_open ps c.0 (λ k. omega (arith, le k, c.3 k)) in
    (ih.0, rw c.1 ih.1, λ k. omega (arith, c.3 k, ih.2 k))

-- Taking out a call that still rings keeps every conference ring backed.
pub delete_pending-Backed :
    (call : Call) (cs : List Call)
    → find_call call.id cs ≡ some call
    → call.state ≡ pending
    → (a : PendingAdd) → Backed cs a
    → Backed (delete_call call.id cs) a
delete_pending-Backed call cs here st a b = elim (text_discrete call.id a.call_id) [
  | yes p ↦ absurd (ground (arith, subst (λ i. find_call i cs ≡ some call) p here))
  | no n ↦ rw (find-delete_call_ne call.id a.call_id cs n) b
]

-- The table after a conference ring has been stopped and taken out.
pub dropped_add :
    (id u : Text) (s : Calls)
    → Inv s
    → (ring : PendingAdd) → find_add id u s.pending_adds ≡ some ring
    → (o : Outside) → ((k : ℕ) → opened k s.chans ≡ one_at k ring.stop + opened k o.chans)
    → Sound s.calls (delete_add id u s.pending_adds) o.chans s.next_chan
dropped_add id u s v ring e o shut = record {
  owned = λ k.
      omega (arith, shut k, v.owned k, total-delete_add (at_stop k) id u s.pending_adds ring e);
  single = λ k. omega (arith, shut k, v.single k);
  fresh = λ k le. omega (arith, shut k, v.fresh k le);
  shaped = v.shaped;
  distinct = v.distinct;
  backed = All-delete_add (Backed s.calls) id u s.pending_adds v.backed;
  one_ring =
      λ w. omega (arith, v.one_ring w, total-delete_add (invites w) id u s.pending_adds ring e);
}

module _ (call : Call) (u : Text) (s : Calls) (v : Inv s)
    (here : find_call call.id s.calls ≡ some call) where
  decline-Keeps : Keeps (decline_invite call call.id u s)
  unfolding decline_invite
  decline-Keeps = elim (Option-cases (find_add call.id u s.pending_adds)) [
    | inl e ↦ rw (e, decline_invite) (rw chans-send_each v)
    | inr (ring, e) ↦
        let c = close_open ring.stop s.outside (add_stop_open call.id u s ring v e) in
        rw (e, decline_invite)
          (Keeps-bind (close ring.stop s.outside) _ c.1
            (rw chans-send_each (dropped_add call.id u s v ring e c.0 c.3)))
  ]

  module _ (st : call.state ≡ pending) where
    taken_out :
        (o : Outside)
        → ((k : ℕ) → opened k s.chans ≡ holds k call + opened k o.chans)
        → Sound (delete_call call.id s.calls) s.pending_adds o.chans s.next_chan
    taken_out o shut = record {
      owned = λ k.
          omega (arith, shut k, v.owned k, total-delete_call (holds k) call.id s.calls call here);
      single = λ k. omega (arith, shut k, v.single k);
      fresh = λ k le. omega (arith, shut k, v.fresh k le);
      shaped = All-delete_call Shaped call.id s.calls v.shaped;
      distinct = Distinct-delete_call call.id s.calls v.distinct;
      backed =
          All-map (Backed s.calls) _ (delete_pending-Backed call s.calls here st) s.pending_adds
            v.backed;
      one_ring =
          λ w. omega (arith, v.one_ring w, total-delete_call (rings w) call.id s.calls call here);
    }

    reject_pending-Keeps : Keeps (reject_pending call call.id u s)
    unfolding reject_pending
    reject_pending-Keeps =
        let p =
          pending-Shape call.state call.caller call.participants st
            (All-find_call Shaped call.id s.calls call here v.shaped) in
        let c = close_open call.stop_ring s.outside (stop_ring_open call s v here st) in
        let d = close_each_open call.participants c.0 (λ k. omega (
          arith,
          c.3 k,
          v.owned k,
          holds_pending k call st,
          total-delete_call (holds k) call.id s.calls call here,
        )) in
        Keeps-bind (first call.participants) _ p.1 (
          Keeps-bind (close call.stop_ring s.outside) _ c.1 (
            Keeps-bind (close_each call.participants c.0) _ d.1
              (taken_out d.0 (λ k. omega (arith, c.3 k, d.2 k, holds_pending k call st)))))

reject_in-Keeps :
    (st : CallState) (call : Call) (u : Text) (s : Calls)
    → Inv s
    → find_call call.id s.calls ≡ some call
    → call.state ≡ st
    → Keeps (reject_in st call call.id u s)
unfolding reject_in
reject_in-Keeps pending call u s v here st = reject_pending-Keeps call u s v here st
reject_in-Keeps active call u s v here st = decline-Keeps call u s v here
reject_in-Keeps idle call u s v here st = v

-- Reject panics on no sound table and keeps it sound, whatever it returns.
pub reject_call-Keeps : (id u : Text) (s : Calls) → Inv s → Keeps (reject_call id u s)
unfolding reject_call
reject_call-Keeps id u s v = elim (Option-cases (find_call id s.calls)) [
  | inl e ↦ rw (e, reject_call) v
  | inr (call, e) ↦
      rw (e, reject_call)
        (subst (λ i. Keeps (reject_in call.state call i u s)) (find_call-id id s.calls call e)
          (reject_in-Keeps call.state call u s v (find_call_here id s.calls call e) refl))
]
