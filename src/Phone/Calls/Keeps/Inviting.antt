-- ===== src/Phone/Calls/Keeps/Inviting.antt =====
-- internal/phone/call.go: Add, its tick, CancelAdd, BroadcastChar and the soundness of the call
-- table.
use retro_vax_bbs.Prelude.{
  ℕ, ◌+◌, ◌≤◌, ◌≡◌, refl, ◌∙◌, Text, false, none, some, List, [], ◌∷◌, arith, one_at_self,
  Option-cases, Bool-cases, inl, inr, subst,
}
use retro_vax_bbs.Registry.Event.{hangup}
use retro_vax_bbs.Phone.Calls.State.{
  Call, CallState, Calls, Chan, Participant, PendingAdd, active, find_add, find_call, idle, pending,
  same,
}
use retro_vax_bbs.Phone.Calls.Channels.{close, close_open, handles, push_open, chans-send_each}
use retro_vax_bbs.Phone.Calls.Admission.{admit, has_pending_add, ring_event}
use retro_vax_bbs.Phone.Calls.Answering.{event}
use retro_vax_bbs.Phone.Calls.Inviting.{
  add, add_in, add_tick, broadcast_char, cancel_add, invited, ring_and_tell, stop_add,
  tell_cancelled, type_to,
}
use retro_vax_bbs.Phone.Calls.Tables.{
  total, total-delete_call, find_call-id, find_call_here, delete_add_absent,
}
use retro_vax_bbs.Phone.Calls.Invariant.{
  Inv, Stays, Stays-bind, Stays-then, handles-Sound, notify_account-Sound, holds, incoming_of,
  invites, new_chan_single, one_at_above, opened, rings, ring_sessions-Inv, total-has_pending_add,
  total-has_pending_dial,
}
use retro_vax_bbs.Phone.Calls.Keeps.Dialing.{admit-Admitted}
use retro_vax_bbs.Phone.Calls.Keeps.Answering.{add_stop_open}
use retro_vax_bbs.Phone.Calls.Keeps.Rejecting.{dropped_add}

find_add-none :
    (id u : Text) (adds : List PendingAdd)
    → has_pending_add u adds ≡ false
    → find_add id u adds ≡ none
unfolding has_pending_add find_add
find_add-none id u [] h = refl
find_add-none id u (a ∷ as') h = ground (arith, find_add-none id u as')

ring_and_tell-Inv :
    (call : Call) (id caller callee : Text) (s : Calls)
    → Inv s
    → Inv (ring_and_tell call id caller callee s)
unfolding ring_and_tell
ring_and_tell-Inv call id caller callee s v =
    rw chans-send_each (ring_sessions-Inv callee (ring_event id caller callee) s v)

module _ (fold : ℕ → ℕ) (call : Call) (caller callee : Text) (s : Calls) (v : Inv s)
    (here : find_call call.id s.calls ≡ some call) (act : call.state ≡ active)
    (admitted : admit fold caller callee s ≡ none) where
  invited_one_ring :
      (u : Text)
      → total (rings u) s.calls + total (invites u) (invited call.id caller callee s).pending_adds
        ≤ 1
  invited_one_ring u =
      let a = admit-Admitted fold caller callee s admitted in
      rw (delete_add_absent call.id callee s.pending_adds (find_add-none call.id callee _ a.no_add))
        (ground (
          arith,
          v.one_ring u,
          total-has_pending_dial callee s.calls a.no_dial,
          total-has_pending_add callee s.pending_adds a.no_add,
        ))

  invited-Inv : Inv (invited call.id caller callee s)
  invited-Inv =
      let a = admit-Admitted fold caller callee s admitted in
      let same_adds =
        delete_add_absent call.id callee s.pending_adds (find_add-none call.id callee _ a.no_add) in
      record {
        owned = λ k. rw same_adds (omega (arith, v.owned k));
        single = λ k. new_chan_single k s.next_chan s.chans (v.single k) (v.fresh k);
        fresh = λ k le. ground (arith, v.fresh k, one_at_above k s.next_chan);
        shaped = v.shaped;
        distinct = v.distinct;
        backed = rw same_adds (rw here (ground arith), v.backed);
        one_ring = invited_one_ring;
      }

add_in-Inv :
    (fold : ℕ → ℕ) (st : CallState) (call : Call) (caller callee : Text) (s : Calls)
    → Inv s
    → find_call call.id s.calls ≡ some call
    → call.state ≡ st
    → Inv (add_in fold st call call.id caller callee s).0
unfolding add_in
add_in-Inv fold pending call caller callee s v here st = v
add_in-Inv fold idle call caller callee s v here st = v
add_in-Inv fold active call caller callee s v here st =
    elim (Option-cases (admit fold caller callee s)) [
      | inl e ↦
          rw (e, add_in)
            (ring_and_tell-Inv call call.id caller callee (invited call.id caller callee s)
              (invited-Inv fold call caller callee s v here st e))
      | inr (x, e) ↦ rw (e, add_in) v
    ]

-- Add keeps the table sound, whether it rings or refuses.
pub add-Inv :
    (fold : ℕ → ℕ) (id caller callee : Text) (s : Calls)
    → Inv s
    → Inv (add fold id caller callee s).0
unfolding add
add-Inv fold id caller callee s v = elim (Option-cases (find_call id s.calls)) [
  | inl e ↦ rw (e, add) v
  | inr (call, e) ↦
      rw (e, add)
        (subst (λ i. Inv (add_in fold call.state call i caller callee s).0)
          (find_call-id id s.calls call e)
          (add_in-Inv fold call.state call caller callee s v (find_call_here id s.calls call e)
            refl))
]

pub add_tick-Inv : (id caller callee : Text) (s : Calls) → Inv s → Inv (add_tick id caller callee s)
unfolding add_tick
add_tick-Inv id caller callee s v = elim (Option-cases (find_call id s.calls)) [
  | inl e ↦ rw (e, add_tick) v
  | inr (c, e) ↦ rw (e, add_tick) (ring_and_tell-Inv c id caller callee s v)
]

stop_add-Stays : (id u : Text) (s : Calls) → Inv s → Stays (stop_add id u s)
unfolding stop_add
stop_add-Stays id u s v = elim (Option-cases (find_add id u s.pending_adds)) [
  | inl e ↦ rw (e, stop_add) v
  | inr (ring, e) ↦
      let c = close_open ring.stop s.outside (add_stop_open id u s ring v e) in
      rw (e, stop_add)
        (Stays-bind (close ring.stop s.outside) _ c.1 (dropped_add id u s v ring e c.0 c.3))
]

tell_cancelled-Inv :
    (id callee caller : Text) (s : Calls) → Inv s → Inv (tell_cancelled id callee caller s)
unfolding tell_cancelled
tell_cancelled-Inv id callee caller s v =
    let told =
      notify_account-Sound callee (event hangup id caller callee) s.outside s.calls s.pending_adds
        s.next_chan v in
    elim (Option-cases (find_call id s.calls)) [
      | inl e ↦ rw (e, tell_cancelled) told
      | inr (call, e) ↦ rw (e, tell_cancelled) (rw chans-send_each told)
    ]

-- CancelAdd panics on no sound table and keeps it sound.
pub cancel_add-Stays :
    (id callee caller : Text) (s : Calls) → Inv s → Stays (cancel_add id callee caller s)
unfolding cancel_add
cancel_add-Stays id callee caller s v =
    Stays-then (stop_add id callee s) _ (stop_add-Stays id callee s v)
      (λ s' v'. tell_cancelled-Inv id callee caller s' v')

type_to_open :
    (ps : List Participant) (sender : Text) (r : ℕ) (cs : List Chan)
    → ((k : ℕ) → incoming_of k ps ≤ opened k cs)
    → (cs' : List Chan) × (type_to ps sender r cs ≡ some cs') × (handles cs' ≡ handles cs)
unfolding type_to
type_to_open [] sender r cs le = (cs, refl, refl)
type_to_open (p ∷ ps) sender r cs le =
    let pu =
      push_open p.incoming (record { r = r; sender = sender }) cs
        (omega (arith, le p.incoming, one_at_self p.incoming)) in
    elim (Bool-cases (same p.username sender)) [
      | inl e ↦ rw e (type_to_open ps sender r cs (λ k. omega (arith, le k)))
      | inr e ↦
          let ih = type_to_open ps sender r pu.0 (λ k. rw pu.2 (omega (arith, le k))) in
          rw e (ih.0, rw pu.1 ih.1, ih.2 ∙ pu.2)
    ]

-- BroadcastChar never sends on a closed channel, and keeps the table sound.
pub broadcast_char-Stays :
    (id sender : Text) (r : ℕ) (s : Calls) → Inv s → Stays (broadcast_char id sender r s)
unfolding broadcast_char
broadcast_char-Stays id sender r s v = elim (Option-cases (find_call id s.calls)) [
  | inl e ↦ rw (e, broadcast_char) v
  | inr (call, e) ↦
      let t =
        type_to_open call.participants sender r s.chans
          (λ k. omega (arith, v.owned k, total-delete_call (holds k) id s.calls call e)) in
      rw (e, broadcast_char)
        (Stays-bind (type_to call.participants sender r s.chans) _ t.1
          (handles-Sound s.chans t.0 s.calls s.pending_adds s.next_chan t.2 v))
]
