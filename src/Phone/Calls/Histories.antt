-- ===== src/Phone/Calls/Histories.antt =====
-- internal/phone/call.go: any sequence of operations and ring ticks, in the order in which they take
-- the lock c.mu. The ticks may come at any time, also after their goroutine was stopped.
use retro_vax_bbs.Prelude.{ℕ, ◌≡◌, refl, Text, Option, none, some, arith}
use retro_vax_bbs.Registry.State.{Registry}
use retro_vax_bbs.Phone.Calls.State.{Calls, find_call, new_calls}
use retro_vax_bbs.Phone.Calls.Admission.{call_id, dial, dial_tick}
use retro_vax_bbs.Phone.Calls.Answering.{answer_call, reject_call}
use retro_vax_bbs.Phone.Calls.Inviting.{add, add_tick, broadcast_char, cancel_add}
use retro_vax_bbs.Phone.Calls.Leaving.{hangup_call, hangup_session, reap_unreachable_rings}
use retro_vax_bbs.Phone.Calls.Invariant.{Inv, Keeps, Stays}
use retro_vax_bbs.Phone.Calls.Keeps.Dialing.{dial-Inv, dial_tick-Inv}
use retro_vax_bbs.Phone.Calls.Keeps.Answering.{answer_call-Keeps}
use retro_vax_bbs.Phone.Calls.Keeps.Rejecting.{reject_call-Keeps}
use retro_vax_bbs.Phone.Calls.Keeps.Inviting.{
  add-Inv, add_tick-Inv, cancel_add-Stays, broadcast_char-Stays,
}
use retro_vax_bbs.Phone.Calls.Keeps.Leaving.{hangup_call-Stays, hangup_session-Stays}
use retro_vax_bbs.Phone.Calls.Keeps.Reaping.{reap-Stays}

-- An operation with its arguments, as its Go method takes them after the call table; `dials` has the
-- clock's reading besides. `reregisters` is what the registry does in between: it gives the table
-- another registry.
pub data Op : Type 0 where
  dials : (sid caller callee : Text) (now : ℕ) → Op
  dial_ticks : (id caller callee : Text) → Op
  answers : (id sid username : Text) → Op
  rejects : (id username : Text) → Op
  hangs_up : (id sid : Text) → Op
  drops : (sid : Text) → Op
  reaps : (username : Text) → Op
  adds : (id caller callee : Text) → Op
  add_ticks : (id caller callee : Text) → Op
  cancels : (id callee caller : Text) → Op
  types : (id sender : Text) (r : ℕ) → Op
  reregisters : Registry → Op

abbrev pub state_after {ℓ} : {A : Type ℓ} → Option (Calls × A) → Option Calls
state_after none = none
state_after (some (s, a)) = some s

unfoldable pub step : (ℕ → ℕ) → Op → Calls → Option Calls
step fold (dials sid caller callee now) s = some (dial fold sid caller callee now s).0
step fold (dial_ticks id caller callee) s = some (dial_tick id caller callee s)
step fold (answers id sid u) s = state_after (answer_call id sid u s)
step fold (rejects id u) s = state_after (reject_call id u s)
step fold (hangs_up id sid) s = hangup_call id sid s
step fold (drops sid) s = hangup_session sid s
step fold (reaps u) s = reap_unreachable_rings u s
step fold (adds id caller callee) s = some (add fold id caller callee s).0
step fold (add_ticks id caller callee) s = some (add_tick id caller callee s)
step fold (cancels id callee caller) s = cancel_add id callee caller s
step fold (types id sender r) s = broadcast_char id sender r s
step fold (reregisters reg) s = some (record s { outside = record s.outside { reg = reg } })

-- A history and the state that it leads to; each Dial makes an id that no call of the table has.
pub data Run (fold : ℕ → ℕ) (s : Calls) : Option Calls → Type 0 where
  here : Run fold s (some s)
  next :
      {t : Calls} (op : Op)
      → Run fold s (some t)
      → ((sid caller callee : Text) (now : ℕ)
          → op ≡ dials sid caller callee now
          → find_call (call_id caller callee now) t.calls ≡ none)
      → Run fold s (step fold op t)

Stays-Keeps {ℓ} : {A : Type ℓ} (o : Option (Calls × A)) → Keeps o → Stays (state_after o)
Stays-Keeps none h = h
Stays-Keeps (some (s, a)) h = h

-- Each operation panics on no sound table and keeps it sound.
pub step-Stays :
    (fold : ℕ → ℕ) (op : Op) (s : Calls)
    → Inv s
    → ((sid caller callee : Text) (now : ℕ)
        → op ≡ dials sid caller callee now
        → find_call (call_id caller callee now) s.calls ≡ none)
    → Stays (step fold op s)
unfolding step
step-Stays fold (dials sid caller callee now) s v unused =
    dial-Inv fold sid caller callee now s v (unused sid caller callee now refl)
step-Stays fold (dial_ticks id caller callee) s v unused = dial_tick-Inv id caller callee s v
step-Stays fold (answers id sid u) s v unused = Stays-Keeps _ (answer_call-Keeps id sid u s v)
step-Stays fold (rejects id u) s v unused = Stays-Keeps _ (reject_call-Keeps id u s v)
step-Stays fold (hangs_up id sid) s v unused = hangup_call-Stays id sid s v
step-Stays fold (drops sid) s v unused = hangup_session-Stays sid s v
step-Stays fold (reaps u) s v unused = reap-Stays u s v
step-Stays fold (adds id caller callee) s v unused = add-Inv fold id caller callee s v
step-Stays fold (add_ticks id caller callee) s v unused = add_tick-Inv id caller callee s v
step-Stays fold (cancels id callee caller) s v unused = cancel_add-Stays id callee caller s v
step-Stays fold (types id sender r) s v unused = broadcast_char-Stays id sender r s v
step-Stays fold (reregisters reg) s v unused = v

Run-Stays : {fold : ℕ → ℕ} {s : Calls} {o : Option Calls} → Inv s → Run fold s o → Stays o
Run-Stays v here = v
Run-Stays {fold} v (next {t} op r unused) = step-Stays fold op t (Run-Stays v r) unused

pub new_calls-Inv : (reg : Registry) → Inv (new_calls reg)
new_calls-Inv reg = record {
  owned = λ k. omega arith;
  single = λ k. omega arith;
  fresh = λ k le. refl;
  shaped = tt;
  distinct = tt;
  backed = tt;
  one_ring = λ u. omega arith;
}

pub Stays-some : (o : Option Calls) → Stays o → (s : Calls) × (o ≡ some s) × Inv s
Stays-some (some s) h = (s, refl, h)
Stays-some none h = absurd h

-- From the empty table, every history whose dials make new ids ends in a state, with no panic, and
-- the table there is sound.
pub Run-Inv :
    (fold : ℕ → ℕ) (reg : Registry) (o : Option Calls)
    → Run fold (new_calls reg) o
    → (s : Calls) × (o ≡ some s) × Inv s
Run-Inv fold reg o r = Stays-some o (Run-Stays (new_calls-Inv reg) r)
