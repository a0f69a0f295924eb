-- ===== src/Phone/Calls/Keeps/Reaping.antt =====
-- internal/phone/call.go: ReapUnreachableRings and the soundness of the call table.
use retro_vax_bbs.Prelude.{
  ℕ, ◌+◌, ◌≤◌, ◌≡◌, refl, ap, Text, Bool, true, some, List, [], ◌∷◌, arith, one_at, one_at_self,
  Option-cases, Bool-cases, inl, inr,
}
use retro_vax_bbs.Registry.Event.{EventType, PhoneEvent}
use retro_vax_bbs.Registry.State.{is_empty}
use retro_vax_bbs.Phone.Calls.State.{Call, Calls, Outside, Participant, PendingAdd, find_call, same}
use retro_vax_bbs.Phone.Calls.Channels.{close_open, send, send_each, chans-send_each}
use retro_vax_bbs.Phone.Calls.Admission.{rings_callee, ringable_sessions}
use retro_vax_bbs.Phone.Calls.Answering.{event}
use retro_vax_bbs.Phone.Calls.Leaving.{
  reap_adds, reap_all, reap_calls, reap_participants, reap_type, reap_unreachable_rings,
  ring_audience,
}
use retro_vax_bbs.Phone.Calls.Tables.{
  total, total-without-le, without, All-map, All-without, Distinct-without, find-without,
}
use retro_vax_bbs.Phone.Calls.Invariant.{
  Backed, Inv, Shaped, Sound, Stays, at_stop, holds, incoming_of, invites, opened, rings,
}

reap_participants_open :
    (ps : List Participant) (ev : PhoneEvent) (o : Outside)
    → ((k : ℕ) → incoming_of k ps ≤ opened k o.chans)
    → (o' : Outside) × (reap_participants ps ev o ≡ some o')
      × ((k : ℕ) → opened k o.chans ≡ incoming_of k ps + opened k o'.chans)
unfolding reap_participants
reap_participants_open [] ev o le = (o, refl, λ k. omega arith)
reap_participants_open (p ∷ ps) ev o le =
    let c = close_open p.incoming o (omega (arith, le p.incoming, one_at_self p.incoming)) in
    let ih =
      reap_participants_open ps ev (send p.session_id ev c.0) (λ k. omega (arith, le k, c.3 k)) in
    (ih.0, rw c.1 ih.1, λ k. omega (arith, c.3 k, ih.2 k))

abbrev pub for_user : Text → PendingAdd → Bool
for_user u a = same a.callee u

holds_ringing :
    (k : ℕ) (u : Text) (c : Call)
    → rings_callee u c ≡ true
    → holds k c ≡ one_at k c.stop_ring + incoming_of k c.participants
holds_ringing k u c e = ground arith

reap_calls_open :
    (u : Text) (type : EventType) (cs : List Call) (o : Outside)
    → ((k : ℕ) → total (holds k) cs ≤ opened k o.chans)
    → (o' : Outside) × (reap_calls u type cs o ≡ some (without (rings_callee u) cs, o'))
      × ((k : ℕ)
          → opened k o.chans + total (holds k) (without (rings_callee u) cs)
            ≡ total (holds k) cs + opened k o'.chans)
unfolding reap_calls
reap_calls_open u type [] o le = (o, refl, λ k. omega arith)
reap_calls_open u type (x ∷ cs) o le = elim (Bool-cases (rings_callee u x)) [
  | inl e ↦
      let h = λ (k : ℕ). holds_ringing k u x e in
      let c =
        close_open x.stop_ring o
          (omega (arith, le x.stop_ring, h x.stop_ring, one_at_self x.stop_ring)) in
      let r =
        reap_participants_open x.participants (event type x.id x.caller u) c.0
          (λ k. omega (arith, le k, h k, c.3 k)) in
      let ih = reap_calls_open u type cs r.0 (λ k. omega (arith, le k, h k, c.3 k, r.2 k)) in
      rw e (ih.0, rw c.1 (rw r.1 ih.1), λ k. omega (arith, c.3 k, r.2 k, h k, ih.2 k))
  | inr e ↦
      let ih = reap_calls_open u type cs o (λ k. omega (arith, le k)) in
      rw e (ih.0, rw ih.1 refl, λ k. omega (arith, ih.2 k))
]

reap_adds_open :
    (u : Text) (type : EventType) (cs : List Call) (adds : List PendingAdd) (o : Outside)
    → ((k : ℕ) → total (at_stop k) adds ≤ opened k o.chans)
    → (o' : Outside) × (reap_adds u type cs adds o ≡ some (without (for_user u) adds, o'))
      × ((k : ℕ)
          → opened k o.chans + total (at_stop k) (without (for_user u) adds)
            ≡ total (at_stop k) adds + opened k o'.chans)
unfolding reap_adds
reap_adds_open u type cs [] o le = (o, refl, λ k. omega arith)
reap_adds_open u type cs (a ∷ adds) o le = elim (Bool-cases (for_user u a)) [
  | inl e ↦
      let c = close_open a.stop o (omega (arith, le a.stop, one_at_self a.stop)) in
      let ev = event type a.call_id a.inviter u in
      let told = send_each (ring_audience a.call_id cs) ev c.0 in
      let ih =
        reap_adds_open u type cs adds told (λ k. rw chans-send_each (omega (arith, le k, c.3 k))) in
      rw e (
        ih.0,
        rw c.1 ih.1,
        λ k. omega (
          arith,
          c.3 k,
          ih.2 k,
          ap (opened k) (chans-send_each (ring_audience a.call_id cs) ev c.0),
        ),
      )
  | inr e ↦
      let ih = reap_adds_open u type cs adds o (λ k. omega (arith, le k)) in
      rw e (ih.0, rw ih.1 refl, λ k. omega (arith, ih.2 k))
]

-- A conference ring stays backed: its call is active, so it is not reaped.
without-Backed :
    (u : Text) (cs : List Call) (a : PendingAdd)
    → Backed cs a
    → Backed (without (rings_callee u) cs) a
without-Backed u cs a b = elim (Option-cases (find_call a.call_id cs)) [
  | inl e ↦ absurd (ground arith)
  | inr (c, e) ↦ rw (find-without (rings_callee u) a.call_id cs c e (ground arith)) (rw e at b)
]

module _ (u : Text) (type : EventType) (s : Calls) (v : Inv s) where
  -- The table without the rings that were aimed at the user.
  reaped-Sound :
      (o : Outside)
      → ((k : ℕ)
          → opened k s.chans
              + total (holds k) (without (rings_callee u) s.calls)
              + total (at_stop k) (without (for_user u) s.pending_adds)
            ≡ total (holds k) s.calls + total (at_stop k) s.pending_adds + opened k o.chans)
      → Sound
          (without (rings_callee u) s.calls)
          (without (for_user u) s.pending_adds)
          o.chans
          s.next_chan
  reaped-Sound o shut = record {
    owned = λ k. omega (arith, shut k, v.owned k);
    single = λ k. omega (
      arith,
      shut k,
      v.single k,
      total-without-le (holds k) (rings_callee u) s.calls,
      total-without-le (at_stop k) (for_user u) s.pending_adds,
    );
    fresh = λ k le. omega (
      arith,
      shut k,
      v.fresh k le,
      total-without-le (holds k) (rings_callee u) s.calls,
      total-without-le (at_stop k) (for_user u) s.pending_adds,
    );
    shaped = All-map _ Shaped (λ c h. h.0) _ (All-without Shaped (rings_callee u) s.calls v.shaped);
    distinct = Distinct-without (rings_callee u) s.calls v.distinct;
    backed =
        All-map _ _ (λ a h. without-Backed u s.calls a h.0) _
          (All-without (Backed s.calls) (for_user u) s.pending_adds v.backed);
    one_ring = λ w. omega (
      arith,
      v.one_ring w,
      total-without-le (rings w) (rings_callee u) s.calls,
      total-without-le (invites w) (for_user u) s.pending_adds,
    );
  }

  -- What the reap leaves of the two tables.
  pub reap_all_lem :
      (o : Outside) × (reap_all u type s
        ≡ some (record s {
          calls = without (rings_callee u) s.calls;
          pending_adds = without (for_user u) s.pending_adds;
          outside = o;
        }))
      × Sound
          (without (rings_callee u) s.calls)
          (without (for_user u) s.pending_adds)
          o.chans
          s.next_chan
  unfolding reap_all
  reap_all_lem =
      let rc = reap_calls_open u type s.calls s.outside (λ k. omega (arith, v.owned k)) in
      let ra = reap_adds_open u type (without (rings_callee u) s.calls) s.pending_adds rc.0 (λ k.
        omega (arith, v.owned k, rc.2 k, total-without-le (holds k) (rings_callee u) s.calls)) in
      (ra.0, rw rc.1 (rw ra.1 refl), reaped-Sound ra.0 (λ k. omega (arith, rc.2 k, ra.2 k)))

-- ReapUnreachableRings panics on no sound table and keeps it sound.
pub reap-Stays : (u : Text) (s : Calls) → Inv s → Stays (reap_unreachable_rings u s)
unfolding reap_unreachable_rings
reap-Stays u s v = elim (Bool-cases (is_empty (ringable_sessions u s))) [
  | inl e ↦ let r = reap_all_lem u (reap_type u s) s v in rw e (rw r.1 r.2)
  | inr e ↦ rw e v
]
