-- ===== src/Phone/Calls/Invariant.antt =====
-- internal/phone/call.go: what holds of the call table between any two operations.
use retro_vax_bbs.Prelude.{
  ℕ, suc, ◌+◌, ◌≤◌, ◌≡◌, refl, ap, Text, Bool, true, false, Option, none, some, List, [], ◌∷◌, ◌++◌,
  if◌then◌else◌, arith, All, count, one_at, length, ◌>>=◌, subst, sym,
}
use retro_vax_bbs.Registry.Event.{PhoneEvent}
use retro_vax_bbs.Registry.State.{sessions_of}
use retro_vax_bbs.Phone.Calls.State.{
  Call, CallState, Calls, Chan, Outside, Participant, PendingAdd, active, find_call, idle,
  is_pending, pending, same,
}
use retro_vax_bbs.Phone.Calls.Channels.{handles, notify_account, send_each, chans-send_each}
use retro_vax_bbs.Phone.Calls.Admission.{
  rings_callee, has_pending_dial, has_pending_add, ring_sessions, ringable_sessions,
}
use retro_vax_bbs.Phone.Calls.Answering.{first}
use retro_vax_bbs.Phone.Calls.Tables.{total, Distinct}

-- How often a call, or an outstanding conference ring, answers for an open channel.
abbrev pub incoming_of : ℕ → List Participant → ℕ
incoming_of k ps = total (λ p. one_at k p.incoming) ps

abbrev pub holds : ℕ → Call → ℕ
holds k c = (if is_pending c.state then one_at k c.stop_ring else 0) + incoming_of k c.participants

abbrev pub at_stop : ℕ → PendingAdd → ℕ
at_stop k a = one_at k a.stop

-- Whether a call, or a conference ring, rings a user.
abbrev pub rings : Text → Call → ℕ
rings u c = if rings_callee u c then 1 else 0

abbrev pub invites : Text → PendingAdd → ℕ
invites u a = if same a.callee u then 1 else 0

-- A pending call has its caller alone; an active one has somebody in it; none is idle.
abbrev pub Shape : CallState → Text → List Participant → Type 0
Shape pending caller [] = ⊥
Shape pending caller (p ∷ ps) = (ps ≡ []) × (p.username ≡ caller)
Shape active caller ps = 1 ≤ length ps
Shape idle caller ps = ⊥

abbrev pub Shaped : Call → Type 0
Shaped c = Shape c.state c.caller c.participants

abbrev pub is_active : Option Call → Bool
is_active none = false
is_active (some c) = elim c.state [ active ↦ true | _ ↦ false ]

-- A conference ring belongs to a call that is active.
abbrev pub Backed : List Call → PendingAdd → Type 0
Backed calls a = is_active (find_call a.call_id calls) ≡ true

abbrev pub opened : ℕ → List Chan → ℕ
opened k chans = count k (handles chans)

pub record Sound (calls : List Call) (adds : List PendingAdd) (chans : List Chan) (next : ℕ)
    : Type 0 where
  pub owned : (k : ℕ) → opened k chans ≡ total (holds k) calls + total (at_stop k) adds
  pub single : (k : ℕ) → opened k chans ≤ 1
  pub fresh : (k : ℕ) → next ≤ k → opened k chans ≡ 0
  pub shaped : All Shaped calls
  pub distinct : Distinct calls
  pub backed : All (Backed calls) adds
  pub one_ring : (u : Text) → total (rings u) calls + total (invites u) adds ≤ 1

abbrev pub Inv : Calls → Type 0
Inv s = Sound s.calls s.pending_adds s.chans s.next_chan

-- What an operation that may panic does from a sound table: it returns, and the table is sound.
abbrev pub Keeps {ℓ} : {A : Type ℓ} → Option (Calls × A) → Type 0
Keeps none = ⊥
Keeps (some (s, a)) = Inv s

abbrev pub Stays : Option Calls → Type 0
Stays none = ⊥
Stays (some s) = Inv s

-- A step of a do block that returned.
pub Keeps-bind {ℓ κ} :
    {X : Type ℓ} {A : Type κ} (m : Option X) (f : X → Option (Calls × A)) {x : X}
    → m ≡ some x
    → Keeps (f x)
    → Keeps (m >>= f)
Keeps-bind m f e k = subst (λ n. Keeps (n >>= f)) (sym e) k

pub Stays-bind {ℓ} :
    {X : Type ℓ} (m : Option X) (f : X → Option Calls) {x : X}
    → m ≡ some x
    → Stays (f x)
    → Stays (m >>= f)
Stays-bind m f e k = subst (λ n. Stays (n >>= f)) (sym e) k

pub Stays-then :
    (m : Option Calls) (f : Calls → Option Calls)
    → Stays m
    → ((s : Calls) → Inv s → Stays (f s))
    → Stays (m >>= f)
Stays-then (some s) f h k = k s h
Stays-then none f h k = absurd h

pub active-Shape :
    (st : CallState) (caller : Text) (ps : List Participant)
    → st ≡ active
    → 1 ≤ length ps
    → Shape st caller ps
active-Shape active caller ps e le = le
active-Shape pending caller ps e le = absurd (cc)
active-Shape idle caller ps e le = absurd (cc)

pub pending-Shape :
    (st : CallState) (caller : Text) (ps : List Participant)
    → st ≡ pending
    → Shape st caller ps
    → (p : Participant) × (first ps ≡ some p) × (ps ≡ p ∷ []) × (p.username ≡ caller)
unfolding first
pending-Shape pending caller (p ∷ ps) e h = (p, refl, ap (◌∷◌ p) h.0, h.1)
pending-Shape pending caller [] e h = absurd h
pending-Shape active caller ps e h = absurd (cc)
pending-Shape idle caller ps e h = absurd h

pub not_idle-Shape : (caller : Text) (ps : List Participant) → Shape idle caller ps → ⊥
not_idle-Shape caller ps h = h

pub holds_pending :
    (k : ℕ) (c : Call)
    → c.state ≡ pending
    → holds k c ≡ one_at k c.stop_ring + incoming_of k c.participants
holds_pending k c e = ground arith

pub new_chans_single :
    (k next : ℕ) (chans : List Chan)
    → (opened k chans ≤ 1)
    → (next ≤ k → opened k chans ≡ 0)
    → one_at k next + (one_at k (next + 1) + opened k chans) ≤ 1
unfolding one_at
new_chans_single k next chans h f = ground (arith, f)

pub one_at_above : (k h : ℕ) → suc h ≤ k → one_at k h ≡ 0
unfolding one_at
one_at_above k h le = ground arith

pub new_chan_single :
    (k next : ℕ) (chans : List Chan)
    → (opened k chans ≤ 1)
    → (next ≤ k → opened k chans ≡ 0)
    → one_at k next + opened k chans ≤ 1
unfolding one_at
new_chan_single k next chans h f = ground (arith, f)

pub total-has_pending_dial :
    (u : Text) (calls : List Call) → has_pending_dial u calls ≡ false → total (rings u) calls ≡ 0
unfolding has_pending_dial
total-has_pending_dial u [] h = refl
total-has_pending_dial u (c ∷ cs) h = ground (arith, total-has_pending_dial u cs)

pub total-has_pending_add :
    (u : Text) (adds : List PendingAdd)
    → has_pending_add u adds ≡ false
    → total (invites u) adds ≡ 0
unfolding has_pending_add
total-has_pending_add u [] h = refl
total-has_pending_add u (a ∷ as') h = ground (arith, total-has_pending_add u as')

pub total-append {ℓ} :
    {A : Type ℓ} (w : A → ℕ) (xs ys : List A) → total w (xs ++ ys) ≡ total w xs + total w ys
total-append w [] ys = omega arith
total-append w (x ∷ xs) ys = omega (arith, total-append w xs ys)

-- What only sends changes nothing that soundness speaks of.
pub send_each-Sound :
    (sids : List Text) (event : PhoneEvent) (o : Outside) (calls : List Call)
    (adds : List PendingAdd) (next : ℕ)
    → Sound calls adds o.chans next
    → Sound calls adds (send_each sids event o).chans next
send_each-Sound sids event o calls adds next v = rw (chans-send_each sids event o) v

pub ring_sessions-Inv :
    (callee : Text) (event : PhoneEvent) (s : Calls) → Inv s → Inv (ring_sessions callee event s)
unfolding ring_sessions
ring_sessions-Inv callee event s v =
    send_each-Sound (ringable_sessions callee s) event s.outside s.calls s.pending_adds s.next_chan
      v

pub notify_account-Sound :
    (u : Text) (event : PhoneEvent) (o : Outside) (calls : List Call) (adds : List PendingAdd)
    (next : ℕ)
    → Sound calls adds o.chans next
    → Sound calls adds (notify_account u event o).chans next
unfolding notify_account
notify_account-Sound u event o calls adds next v =
    send_each-Sound (sessions_of u o.reg) event o calls adds next v

-- Soundness sees of the open channels their handles only.
pub handles-Sound :
    (cs cs' : List Chan) (calls : List Call) (adds : List PendingAdd) (next : ℕ)
    → handles cs' ≡ handles cs
    → Sound calls adds cs next
    → Sound calls adds cs' next
handles-Sound cs cs' calls adds next e v = record {
  owned = λ k. rw e (v.owned k);
  single = λ k. rw e (v.single k);
  fresh = λ k le. rw e (v.fresh k le);
  shaped = v.shaped;
  distinct = v.distinct;
  backed = v.backed;
  one_ring = v.one_ring;
}
