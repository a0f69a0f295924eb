-- ===== src/Phone/Calls/Keeps/Dialing.antt =====
-- internal/phone/call.go: Dial, its tick and the soundness of the call table.
use retro_vax_bbs.Prelude.{
  ℕ, ◌+◌, ◌≤◌, ◌≡◌, refl, Text, true, false, none, ◌∷◌, arith, Option-cases, inl, inr,
}
use retro_vax_bbs.Registry.State.{connected, is_empty}
use retro_vax_bbs.Phone.Calls.State.{Calls, PendingAdd, find_call}
use retro_vax_bbs.Phone.Calls.Admission.{
  admit, call_id, dial, dial_tick, entered, equal_fold, has_pending_add, has_pending_dial, new_call,
  ring_event, ringable_sessions,
}
use retro_vax_bbs.Phone.Calls.Tables.{delete_call_absent, total, All-map}
use retro_vax_bbs.Phone.Calls.Invariant.{
  Backed, Inv, ring_sessions-Inv, invites, new_chans_single, one_at_above, rings,
  total-has_pending_add, total-has_pending_dial,
}

-- What admission has checked when it lets a ring through.
pub record Admitted (fold : ℕ → ℕ) (caller callee : Text) (s : Calls) : Type 0 where
  pub others : equal_fold fold caller callee ≡ false
  pub online : connected callee s.reg ≡ true
  pub no_dial : has_pending_dial callee s.calls ≡ false
  pub no_add : has_pending_add callee s.pending_adds ≡ false
  pub reachable : is_empty (ringable_sessions callee s) ≡ false

pub admit-Admitted :
    (fold : ℕ → ℕ) (caller callee : Text) (s : Calls)
    → admit fold caller callee s ≡ none
    → Admitted fold caller callee s
unfolding admit
admit-Admitted fold caller callee s e = ground arith

module _ (id sid caller callee : Text) (s : Calls) (v : Inv s)
    (unused : find_call id s.calls ≡ none) (no_dial : has_pending_dial callee s.calls ≡ false)
    (no_add : has_pending_add callee s.pending_adds ≡ false) where
  entered_one_ring :
      (u : Text)
      → total (rings u) (new_call id sid caller callee s.next_chan ∷ s.calls)
          + total (invites u) s.pending_adds
        ≤ 1
  entered_one_ring u = ground (
    arith,
    v.one_ring u,
    total-has_pending_dial callee s.calls no_dial,
    total-has_pending_add callee s.pending_adds no_add,
  )

  new_call-Backed :
      (a : PendingAdd)
      → Backed s.calls a
      → Backed (new_call id sid caller callee s.next_chan ∷ s.calls) a
  unfolding find_call
  new_call-Backed a b = ground arith

  entered-Inv : Inv (entered id sid caller callee s)
  entered-Inv = rw (delete_call_absent id s.calls unused) (record {
    owned = λ k. omega (arith, v.owned k);
    single = λ k. new_chans_single k s.next_chan s.chans (v.single k) (v.fresh k);
    fresh = λ k le.
        ground (arith, v.fresh k, one_at_above k s.next_chan, one_at_above k (s.next_chan + 1));
    shaped = ((refl, refl), v.shaped);
    distinct = (unused, v.distinct);
    backed = All-map (Backed s.calls) _ new_call-Backed s.pending_adds v.backed;
    one_ring = entered_one_ring;
  })

-- Dial keeps the table sound, given that the clock makes the new call's id unused.
pub dial-Inv :
    (fold : ℕ → ℕ) (sid caller callee : Text) (now : ℕ) (s : Calls)
    → Inv s
    → find_call (call_id caller callee now) s.calls ≡ none
    → Inv (dial fold sid caller callee now s).0
unfolding dial
dial-Inv fold sid caller callee now s v unused = elim (Option-cases (admit fold caller callee s)) [
  | inl e ↦
      let a = admit-Admitted fold caller callee s e in
      let id = call_id caller callee now in
      rw (e, dial)
        (ring_sessions-Inv callee (ring_event id caller callee) (entered id sid caller callee s)
          (entered-Inv id sid caller callee s v unused a.no_dial a.no_add))
  | inr (x, e) ↦ rw (e, dial) v
]

pub dial_tick-Inv :
    (id caller callee : Text) (s : Calls) → Inv s → Inv (dial_tick id caller callee s)
unfolding dial_tick
dial_tick-Inv id caller callee s v = elim (Option-cases (find_call id s.calls)) [
  | inl e ↦ rw (e, dial_tick) v
  | inr (c, e) ↦ rw (e, dial_tick) (ring_sessions-Inv callee (ring_event id caller callee) s v)
]
