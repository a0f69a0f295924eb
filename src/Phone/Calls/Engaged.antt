-- ===== src/Phone/Calls/Engaged.antt =====
-- internal/phone/call.go: who takes part in a call and who is being rung, and the tests of it.
use mathlib.Core.List.{Mem, mem-cons, not-mem-nil, mem-cons_self, mem-cons_of_mem}
use mathlib.Core.Logic.Or
use retro_vax_bbs.Prelude.{
  ◌≡◌, ◌≢◌, ◌⊎◌, refl, sym, ◌∙◌, ap, Text, text_discrete, Bool, true, false, List, [], ◌∷◌, any,
  Bool-cases, inl, inr, ◌&&◌, if_pos, if_neg, not,
}
use retro_vax_bbs.Registry.State.{is_empty, sessions_of, connected}
use retro_vax_bbs.Registry.Delivery.{connected-sessions_of}
use retro_vax_bbs.Phone.Calls.State.{
  Call, CallState, Calls, Participant, PendingAdd, active, idle, pending, is_pending, same,
}
use retro_vax_bbs.Phone.Calls.Admission.{
  has_pending_add, has_pending_dial, keep_idle, rings_callee, session_in_call,
}

module _ {A : Type 0} (p : A → Bool) where
  any-Mem : (x : A) (xs : List A) → Mem x xs → p x ≡ true → any p xs ≡ true
  any-Mem x [] m e = absurd (not-mem-nil m)
  any-Mem x (y ∷ ys) m e = elim (Bool-cases (p y)) [
    | inl k ↦ rw k refl
    | inr k ↦ rw k (Or.elim (hlevel) (mem-cons.0 m) (λ q. absurd (cc)) (λ m'. any-Mem x ys m' e))
  ]

  any-witness : (xs : List A) → any p xs ≡ true → (x : A) × Mem x xs × (p x ≡ true)
  any-witness [] e = absurd (cc)
  any-witness (y ∷ ys) e = elim (Bool-cases (p y)) [
    | inl k ↦ (y, mem-cons_self, k)
    | inr k ↦ let r = any-witness ys (rw k at e) in (r.0, mem-cons_of_mem y r.1, r.2)
  ]

  any-none : (xs : List A) → ((x : A) → Mem x xs → p x ≡ true → ⊥) → any p xs ≡ false
  any-none xs h = elim (Bool-cases (any p xs)) [
    | inl e ↦ let w = any-witness xs e in absurd (h w.0 w.1 w.2)
    | inr e ↦ e
  ]

pub apart : {b : Bool} → b ≡ true → b ≡ false → ⊥
apart e f = cc

pub same_path : (a b : Text) → same a b ≡ true → a ≡ b
same_path a b e = elim (text_discrete a b) [
  | yes p ↦ p
  | no n ↦ absurd (apart e (if_neg (text_discrete a b) n true false))
]

pub same_refl : (a b : Text) → a ≡ b → same a b ≡ true
same_refl a b e = if_pos (text_discrete a b) e true false

-- A session takes part in a call.
abbrev pub InCall : Text → List Call → Type 0
InCall sid calls =
    (c : Call) × Mem c calls × ((p : Participant) × Mem p c.participants × (p.session_id ≡ sid))

pub session_in_call-InCall :
    (sid : Text) (calls : List Call) → session_in_call sid calls ≡ true → InCall sid calls
unfolding session_in_call
session_in_call-InCall sid calls e =
    let c =
      any-witness
        (λ (call : Call). any (λ (p : Participant). same p.session_id sid) call.participants) calls
        e in
    let p = any-witness (λ (p : Participant). same p.session_id sid) (c.0).participants c.2 in
    (c.0, c.1, (p.0, p.1, same_path (p.0).session_id sid p.2))

pub InCall-session_in_call :
    (sid : Text) (calls : List Call) → InCall sid calls → session_in_call sid calls ≡ true
unfolding session_in_call
InCall-session_in_call sid calls (c, m, (p, n, e)) =
    any-Mem (λ (call : Call). any (λ (p : Participant). same p.session_id sid) call.participants) c
      calls m
      (any-Mem (λ (p : Participant). same p.session_id sid) p c.participants n
        (same_refl p.session_id sid e))

-- An account is being rung: by a call that nobody has answered, or by an invitation.
abbrev pub Ringing : Text → Calls → Type 0
Ringing callee s =
    ((c : Call) × Mem c s.calls × (c.state ≡ pending) × (c.callee ≡ callee))
    ⊎ ((a : PendingAdd) × Mem a s.pending_adds × (a.callee ≡ callee))

pending_state : (st : CallState) → is_pending st ≡ true → st ≡ pending
pending_state pending e = refl
pending_state active e = absurd (cc)
pending_state idle e = absurd (cc)

both : (a b : Bool) → (a && b) ≡ true → (a ≡ true) × (b ≡ true)
both true b e = (refl, e)
both false b e = absurd (cc)

pub rung_by_dial :
    (callee : Text) (s : Calls) → has_pending_dial callee s.calls ≡ true → Ringing callee s
unfolding has_pending_dial
rung_by_dial callee s e =
    let c = any-witness (rings_callee callee) s.calls e in
    let k = both (is_pending (c.0).state) (same (c.0).callee callee) c.2 in
    inl (c.0, c.1, pending_state (c.0).state k.0, same_path (c.0).callee callee k.1)

pub rung_by_add :
    (callee : Text) (s : Calls) → has_pending_add callee s.pending_adds ≡ true → Ringing callee s
unfolding has_pending_add
rung_by_add callee s e =
    let a = any-witness (λ (x : PendingAdd). same x.callee callee) s.pending_adds e in
    inr (a.0, a.1, same_path (a.0).callee callee a.2)

pub unrung :
    (callee : Text) (s : Calls)
    → has_pending_dial callee s.calls ≡ false
    → has_pending_add callee s.pending_adds ≡ false
    → Ringing callee s
    → ⊥
unfolding has_pending_dial has_pending_add
unrung callee s e f (inl (c, m, st, k)) =
    apart (any-Mem (rings_callee callee) c s.calls m (rw (st, same_refl c.callee callee k) refl)) e
unrung callee s e f (inr (a, m, k)) =
    apart
      (any-Mem (λ (x : PendingAdd). same x.callee callee) a s.pending_adds m
        (same_refl a.callee callee k))
      f

pub first_idle :
    (sids : List Text) (calls : List Call)
    → is_empty (keep_idle sids calls) ≡ false
    → (sid : Text) × Mem sid sids × (InCall sid calls → ⊥)
unfolding keep_idle
first_idle [] calls e = absurd (cc)
first_idle (x ∷ xs) calls e = elim (Bool-cases (session_in_call x calls)) [
  | inl k ↦ let r = first_idle xs calls (rw k at e) in (r.0, mem-cons_of_mem x r.1, r.2)
  | inr k ↦ (x, mem-cons_self, λ h. apart (InCall-session_in_call x calls h) k)
]

pub none_idle :
    (sids : List Text) (calls : List Call)
    → is_empty (keep_idle sids calls) ≡ true
    → (sid : Text) → Mem sid sids
    → session_in_call sid calls ≡ true
unfolding keep_idle
none_idle [] calls e sid m = absurd (not-mem-nil m)
none_idle (x ∷ xs) calls e sid m = elim (Bool-cases (session_in_call x calls)) [
  | inl k ↦
      Or.elim (hlevel) (mem-cons.0 m) (λ q. rw q k) (λ m'. none_idle xs calls (rw k at e) sid m')
  | inr k ↦ absurd (let h : false ≡ true = rw k at e in cc)
]

pub online_lem : (u : Text) (s : Calls) → connected u s.reg ≡ true → sessions_of u s.reg ≢ []
online_lem u s e h = apart e (connected-sessions_of u s.reg ∙ ap (λ x. not (is_empty x)) h)

empty_lem : (xs : List Text) → not (is_empty xs) ≡ false → xs ≡ []
empty_lem [] e = refl
empty_lem (x ∷ xs) e = absurd (cc)

pub offline_lem : (u : Text) (s : Calls) → connected u s.reg ≡ false → sessions_of u s.reg ≡ []
offline_lem u s e = empty_lem (sessions_of u s.reg) (sym (connected-sessions_of u s.reg) ∙ e)
