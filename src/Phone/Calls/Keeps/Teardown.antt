-- ===== src/Phone/Calls/Keeps/Teardown.antt =====
-- internal/phone/call.go: the parts of hangupLocked, and the channels that they close.
use retro_vax_bbs.Prelude.{
  ℕ, ◌+◌, ◌≤◌, ◌≡◌, refl, ap, Text, Bool, true, false, some, List, [], ◌∷◌, arith, one_at,
  one_at_self, length, suc, Option-cases, Bool-cases, inl, inr, if◌then◌else◌,
}
use retro_vax_bbs.Registry.Event.{PhoneEvent, hangup}
use retro_vax_bbs.Registry.State.{is_empty, sessions_of}
use retro_vax_bbs.Phone.Calls.State.{
  Call, CallState, Outside, Participant, PendingAdd, active, idle, is_pending, pending, same,
}
use retro_vax_bbs.Phone.Calls.Channels.{close_open, chans-send_each, notify_account}
use retro_vax_bbs.Phone.Calls.Answering.{event}
use retro_vax_bbs.Phone.Calls.Leaving.{cancel_rings, stop_pending, take_out, tell_callee}
use retro_vax_bbs.Phone.Calls.Tables.{total, without}
use retro_vax_bbs.Phone.Calls.Invariant.{Shape, at_stop, incoming_of, opened}

pub chans-notify_account :
    (u : Text) (ev : PhoneEvent) (o : Outside) → (notify_account u ev o).chans ≡ o.chans
unfolding notify_account
chans-notify_account u ev o = chans-send_each (sessions_of u o.reg) ev o

abbrev pub for_call : Text → PendingAdd → Bool
for_call id a = same a.call_id id

pub cancel_rings_open :
    (id : Text) (adds : List PendingAdd) (o : Outside)
    → ((k : ℕ) → total (at_stop k) adds ≤ opened k o.chans)
    → (o' : Outside) × (cancel_rings id adds o ≡ some (without (for_call id) adds, o'))
      × ((k : ℕ)
          → opened k o.chans + total (at_stop k) (without (for_call id) adds)
            ≡ total (at_stop k) adds + opened k o'.chans)
unfolding cancel_rings
cancel_rings_open id [] o le = (o, refl, λ k. omega arith)
cancel_rings_open id (a ∷ adds) o le = elim (Bool-cases (for_call id a)) [
  | inl e ↦
      let c = close_open a.stop o (omega (arith, le a.stop, one_at_self a.stop)) in
      let told = notify_account a.callee (event hangup id a.inviter a.callee) c.0 in
      let ih =
        cancel_rings_open id adds told
          (λ k. rw chans-notify_account (omega (arith, le k, c.3 k))) in
      rw e (
        ih.0,
        rw c.1 ih.1,
        λ k. omega (
          arith,
          c.3 k,
          ih.2 k,
          ap (opened k) (chans-notify_account a.callee (event hangup id a.inviter a.callee) c.0),
        ),
      )
  | inr e ↦
      let ih = cancel_rings_open id adds o (λ k. omega (arith, le k)) in
      rw e (ih.0, rw ih.1 refl, λ k. omega (arith, ih.2 k))
]

abbrev pub ring_of : ℕ → Call → ℕ
ring_of k c = if is_pending c.state then one_at k c.stop_ring else 0

pub chans-tell_callee :
    (call : Call) (u : Text) (o : Outside) → (tell_callee call u o).chans ≡ o.chans
unfolding tell_callee
chans-tell_callee call u o =
    ground (arith, chans-notify_account call.callee (event hangup call.id u call.callee) o)

pub stop_pending_open :
    (call : Call) (u : Text) (o : Outside)
    → ((k : ℕ) → ring_of k call ≤ opened k o.chans)
    → (o' : Outside) × (stop_pending call u o ≡ some o')
      × ((k : ℕ) → opened k o.chans ≡ ring_of k call + opened k o'.chans)
unfolding stop_pending
stop_pending_open call u o le = elim (Bool-cases (is_pending call.state)) [
  | inl e ↦
      let c =
        close_open call.stop_ring o
          (ground (arith, e, le call.stop_ring, one_at_self call.stop_ring)) in
      rw e (tell_callee call u c.0, rw c.1 refl, λ k. rw chans-tell_callee (c.3 k))
  | inr e ↦ rw e (o, refl, λ k. omega arith)
]

pub take_out-some :
    (sid : Text) (ps : List Participant) (p : Participant) (qs : List Participant)
    → take_out sid ps ≡ some (p, qs)
    → (k : ℕ) → incoming_of k ps ≡ one_at k p.incoming + incoming_of k qs
unfolding take_out
take_out-some sid [] p qs e k = cc
take_out-some sid (x ∷ ps) p qs e k = elim (Option-cases (take_out sid ps)) [
  | inl n ↦ ground arith
  | inr ((q, rest), n) ↦ ground (arith, take_out-some sid ps q rest n k)
]

pub take_out-length :
    (sid : Text) (ps : List Participant) (p : Participant) (qs : List Participant)
    → take_out sid ps ≡ some (p, qs)
    → length ps ≡ suc (length qs)
unfolding take_out
take_out-length sid [] p qs e = cc
take_out-length sid (x ∷ ps) p qs e = elim (Option-cases (take_out sid ps)) [
  | inl n ↦ ground arith
  | inr ((q, rest), n) ↦ ground (arith, take_out-length sid ps q rest n)
]

pub active_of_two :
    (st : CallState) (caller : Text) (ps : List Participant)
    → Shape st caller ps
    → 2 ≤ length ps
    → st ≡ active
active_of_two active caller ps h le = refl
active_of_two pending caller [] h le = absurd h
active_of_two pending caller (p ∷ ps) h le = absurd (omega (arith, ap length h.0))
active_of_two idle caller ps h le = absurd h

pub is_empty_nil : (ps : List Participant) → is_empty ps ≡ true → ps ≡ []
is_empty_nil [] e = refl
is_empty_nil (p ∷ ps) e = cc

pub not_empty_length : (ps : List Participant) → is_empty ps ≡ false → 1 ≤ length ps
not_empty_length [] e = cc
not_empty_length (p ∷ ps) e = omega arith
