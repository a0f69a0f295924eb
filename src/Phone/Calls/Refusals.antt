-- ===== src/Phone/Calls/Refusals.antt =====
-- internal/phone/call.go: whom admitLocked lets ring whom, and what its errors mean.
use mathlib.Core.List.{Mem}
use retro_vax_bbs.Prelude.{
  ℕ, ◌≡◌, ◌≢◌, ◌↔◌, refl, Text, none, some, [], arith, map, Option-cases, Bool-cases, inl, inr,
  Option, subst,
}
use retro_vax_bbs.Registry.State.{is_empty, sessions_of, connected}
use retro_vax_bbs.Phone.Calls.State.{
  Calls, Error, already_answered, being_rung, busy, not_connected, self_call, not_found,
  unexpected_state, not_rejectable, not_active, err,
}
use retro_vax_bbs.Phone.Calls.Admission.{
  admit, dial, has_pending_add, has_pending_dial, keep_idle, ringable_sessions, equal_fold,
}
use retro_vax_bbs.Phone.Calls.Engaged.{
  apart, same_path, same_refl, session_in_call-InCall, rung_by_dial, rung_by_add, unrung,
  first_idle, none_idle, online_lem, offline_lem, InCall, Ringing,
}

-- When the caller may ring the callee.
pub record MayRing (fold : ℕ → ℕ) (caller callee : Text) (s : Calls) : Type 0 where
  pub others : map fold caller ≢ map fold callee
  pub online : sessions_of callee s.reg ≢ []
  pub unrung : Ringing callee s → ⊥
  pub reachable : (sid : Text) × Mem sid (sessions_of callee s.reg) × (InCall sid s.calls → ⊥)

-- What each error of admission says.
abbrev pub Why : (ℕ → ℕ) → Text → Text → Calls → Error → Type 0
Why fold caller callee s self_call = map fold caller ≡ map fold callee
Why fold caller callee s (not_connected u) = (u ≡ callee) × (sessions_of callee s.reg ≡ [])
Why fold caller callee s (being_rung u) = (u ≡ callee) × Ringing callee s
Why fold caller callee s (busy u) =
    (u ≡ callee) × ((sid : Text) → Mem sid (sessions_of callee s.reg) → InCall sid s.calls)
Why fold caller callee s already_answered = ⊥
Why fold caller callee s (not_found u) = ⊥
Why fold caller callee s (unexpected_state u) = ⊥
Why fold caller callee s (not_rejectable u) = ⊥
Why fold caller callee s (not_active u) = ⊥

abbrev Decides : (ℕ → ℕ) → Text → Text → Calls → Option Error → Type 0
Decides fold caller callee s none = MayRing fold caller callee s
Decides fold caller callee s (some e) = Why fold caller callee s e

admit_lem :
    (fold : ℕ → ℕ) (caller callee : Text) (s : Calls)
    → Decides fold caller callee s (admit fold caller callee s)
unfolding admit ringable_sessions
admit_lem fold caller callee s = elim (Bool-cases (equal_fold fold caller callee)) [
  | inl k1 ↦ rw k1 (same_path (map fold caller) (map fold callee) k1)
  | inr k1 ↦ rw k1 (elim (Bool-cases (connected callee s.reg)) [
    | inr k2 ↦ rw k2 (refl, offline_lem callee s k2)
    | inl k2 ↦ rw k2 (elim (Bool-cases (has_pending_dial callee s.calls)) [
      | inl k3 ↦ rw k3 (refl, rung_by_dial callee s k3)
      | inr k3 ↦ rw k3 (elim (Bool-cases (has_pending_add callee s.pending_adds)) [
        | inl k4 ↦ rw k4 (refl, rung_by_add callee s k4)
        | inr k4 ↦
            rw k4 (elim (Bool-cases (is_empty (keep_idle (sessions_of callee s.reg) s.calls))) [
              | inl k5 ↦ rw k5 (
                refl,
                λ sid m.
                    session_in_call-InCall sid s.calls
                      (none_idle (sessions_of callee s.reg) s.calls k5 sid m),
              )
              | inr k5 ↦ rw k5 (record {
                others = λ e. apart (same_refl (map fold caller) (map fold callee) e) k1;
                online = online_lem callee s k2;
                unrung = unrung callee s k3 k4;
                reachable = first_idle (sessions_of callee s.reg) s.calls k5;
              })
            ])
      ])
    ])
  ])
]

refutes :
    (fold : ℕ → ℕ) (caller callee : Text) (s : Calls) (e : Error)
    → MayRing fold caller callee s
    → Why fold caller callee s e
    → ⊥
refutes fold caller callee s self_call m w = m.others w
refutes fold caller callee s (not_connected u) m w = m.online w.1
refutes fold caller callee s (being_rung u) m w = m.unrung w.1
refutes fold caller callee s (busy u) m w = m.reachable.2 (w.1 m.reachable.0 m.reachable.1)
refutes fold caller callee s already_answered m w = w
refutes fold caller callee s (not_found u) m w = w
refutes fold caller callee s (unexpected_state u) m w = w
refutes fold caller callee s (not_rejectable u) m w = w
refutes fold caller callee s (not_active u) m w = w

-- Admission lets a ring through exactly when caller and callee are two accounts, also up to case; the
-- callee has a session; the callee is not being rung, by a call that nobody has answered or by an
-- invitation; and some session of the callee takes part in no call.
pub admit_iff :
    (fold : ℕ → ℕ) (caller callee : Text) (s : Calls)
    → (admit fold caller callee s ≡ none) ↔ MayRing fold caller callee s
admit_iff fold caller callee s = (
  λ e. subst (Decides fold caller callee s) e (admit_lem fold caller callee s),
  λ m. elim (Option-cases (admit fold caller callee s)) [
    | inl e ↦ e
    | inr (x, e) ↦ absurd (
        refutes fold caller callee s x m
          (subst (Decides fold caller callee s) e (admit_lem fold caller callee s)))
  ],
)

-- A Dial that answers an error changes nothing, and the error is true: of a self call, the two names are
-- the same up to case; of a callee not connected, it has no session; of a callee being called, a call that
-- nobody has answered or an invitation rings it; of a callee in a call, every session of it takes part in
-- one. Dial answers no other error.
pub dial_refused :
    (fold : ℕ → ℕ) (sid caller callee : Text) (now : ℕ) (s : Calls) (e : Error)
    → (dial fold sid caller callee now s).1 ≡ err e
    → ((dial fold sid caller callee now s).0 ≡ s) × Why fold caller callee s e
unfolding dial
dial_refused fold sid caller callee now s e h = elim (Option-cases (admit fold caller callee s)) [
  | inl n ↦ absurd (ground arith)
  | inr (x, n) ↦ (
    ground arith,
    subst (Why fold caller callee s) (let q : x ≡ e = ground arith in q)
        (subst (Decides fold caller callee s) n (admit_lem fold caller callee s)),
  )
]
