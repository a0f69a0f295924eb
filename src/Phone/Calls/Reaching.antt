-- ===== src/Phone/Calls/Reaching.antt =====
-- internal/phone/call.go: the event buffers of the registry after ringLocked.
use mathlib.Core.List.{Mem, mem-cons, not-mem-nil, mem-cons_self, mem-cons_of_mem}
use mathlib.Core.Logic.Or
use mathlib.Core.Option.{some-injective}
use retro_vax_bbs.Prelude.{
  ℕ, ◌≡◌, ◌≢◌, ◌⊎◌, ◌≤◌, refl, sym, ◌∙◌, ap, Text, text_discrete, false, none, some, List, [], ◌∷◌,
  ◌++◌, length, Option-cases, Bool-cases, inl, inr, subst,
}
use retro_vax_bbs.Dict.{find}
use retro_vax_bbs.Registry.Event.{PhoneEvent}
use retro_vax_bbs.Registry.State.{Registry, SessionState, buffer_size, send_to_session, sessions_of}
use retro_vax_bbs.Registry.Lockstep.{InStep}
use retro_vax_bbs.Registry.Delivery.{Delivers, send_lem}
use retro_vax_bbs.Phone.Calls.State.{Call, Calls, Outside}
use retro_vax_bbs.Phone.Calls.Channels.{send, send_each}
use retro_vax_bbs.Phone.Calls.Admission.{
  keep_idle, ring_sessions, ringable_sessions, session_in_call,
}
use retro_vax_bbs.Phone.Calls.Engaged.{
  InCall, session_in_call-InCall, InCall-session_in_call, apart,
}

pub same_index :
    (sid : Text) (event : PhoneEvent) (r : Registry)
    → (send_to_session sid event r).session_index ≡ r.session_index
unfolding send_to_session
same_index sid event r = elim (Option-cases (find sid r.session_index)) [
  | inl e ↦ rw (e, send_to_session) refl
  | inr (p, e) ↦ rw (e, send_to_session) refl
]

pub mem-snoc : (xs : List PhoneEvent) (e : PhoneEvent) → Mem e (xs ++ e ∷ [])
mem-snoc [] e = mem-cons_self
mem-snoc (x ∷ xs) e = mem-cons_of_mem x (mem-snoc xs e)

pub mem-more : (xs : List PhoneEvent) (e f : PhoneEvent) → Mem f xs → Mem f (xs ++ e ∷ [])
mem-more [] e f m = absurd (not-mem-nil m)
mem-more (x ∷ xs) e f m =
    Or.elim (hlevel) (mem-cons.0 m) (λ q. rw q mem-cons_self)
      (λ n. mem-cons_of_mem x (mem-more xs e f n))

-- The session object after a send either is as before or has one event more.
pub send_object :
    (sid : Text) (event : PhoneEvent) (r : Registry) (p : ℕ)
    → ((send_to_session sid event r).heap p ≡ r.heap p)
      ⊎ ((send_to_session sid event r).heap p
          ≡ record (r.heap p) { notify = (r.heap p).notify ++ event ∷ [] })
send_object sid event r p = elim (send_lem sid event r) [
  | inl h ↦ inl (rw h.1 refl)
  | inr (q, found, delivered, others) ↦ elim (others p) [
    | inr same ↦ inl same
    | inl e ↦
        elim (subst (λ z. Delivers event (r.heap z) ((send_to_session sid event r).heap z)) (sym e)
          delivered) [ inl room ↦ inr room.1 | inr full ↦ inl full.1 ]
  ]
]

kept :
    (event : PhoneEvent) (p : ℕ) (sids : List Text) (o : Outside)
    → Mem event (o.reg.heap p).notify
    → Mem event ((send_each sids event o).reg.heap p).notify
unfolding send_each
kept event p [] o m = m
kept event p (x ∷ xs) o m = kept event p xs (send x event o) (elim (send_object x event o.reg p) [
  | inl e ↦ rw e m
  | inr e ↦ rw e (mem-more (o.reg.heap p).notify event event m)
])

-- What the sends to some sessions do to the object of one.
abbrev pub Rung : PhoneEvent → SessionState → SessionState → Type 0
Rung event before after = Mem event after.notify ⊎ (buffer_size ≤ length before.notify)

abbrev Outcome : PhoneEvent → Text → List Text → SessionState → SessionState → Type 0
Outcome event sid sids before after =
    (Mem sid sids × Rung event before after) ⊎ ((Mem sid sids → ⊥) × (after ≡ before))

module _ (event : PhoneEvent) (sid : Text) (p : ℕ) where
  Alone : Outside → Type 0
  Alone o =
      (find sid o.reg.session_index ≡ some p)
      × ((t : Text) → find t o.reg.session_index ≡ some p → t ≡ sid)

  Alone-send : (x : Text) (o : Outside) → Alone o → Alone (send x event o)
  unfolding Alone
  Alone-send x o a = rw (same_index x event o.reg) a

  hit :
      (o : Outside)
      → Alone o
      → Mem event ((send sid event o).reg.heap p).notify
        ⊎ (buffer_size ≤ length (o.reg.heap p).notify)
  unfolding Alone
  hit o a = elim (send_lem sid event o.reg) [
    | inl h ↦ absurd (let c : none ≡ some p = sym h.0 ∙ a.0 in cc)
    | inr (q, found, delivered, others) ↦
        let e : q ≡ p = some-injective q p (sym found ∙ a.0) in
        elim (subst (λ z. Delivers event (o.reg.heap z) ((send_to_session sid event o.reg).heap z))
          e delivered) [
            | inl room ↦ inl (rw room.1 (mem-snoc (o.reg.heap p).notify event))
            | inr full ↦ inr full.0
          ]
  ]

  miss : (x : Text) (o : Outside) → Alone o → x ≢ sid → (send x event o).reg.heap p ≡ o.reg.heap p
  unfolding Alone
  miss x o a n = elim (send_lem x event o.reg) [
    | inl h ↦ rw h.1 refl
    | inr (q, found, delivered, others) ↦ elim (others p) [
      | inl e ↦ absurd (n (a.1 x (found ∙ ap some (sym e))))
      | inr same ↦ same
    ]
  ]

  send_each_lem :
      (sids : List Text) (o : Outside)
      → Alone o
      → Outcome event sid sids (o.reg.heap p) ((send_each sids event o).reg.heap p)
  unfolding send_each
  send_each_lem [] o a = inr (λ m. not-mem-nil m, refl)
  send_each_lem (x ∷ xs) o a = elim (text_discrete x sid) [
    | yes e ↦ rw e (
        inl (
          mem-cons_self,
          elim (hit o a) [
            | inl m ↦ inl (kept event p xs (send sid event o) m)
            | inr full ↦ inr full
          ],
        ))
    | no n ↦
        elim (subst (λ h. Outcome event sid xs h ((send_each xs event (send x event o)).reg.heap p))
          (miss x o a n) (send_each_lem xs (send x event o) (Alone-send x o a))) [
            | inl r ↦ inl (mem-cons_of_mem x r.0, r.1)
            | inr r ↦ inr (λ m. Or.elim (hlevel) (mem-cons.0 m) (λ q. n (sym q)) r.0, r.1)
          ]
  ]

keep_idle_sound :
    (sid : Text) (sids : List Text) (calls : List Call)
    → Mem sid (keep_idle sids calls)
    → Mem sid sids × (session_in_call sid calls ≡ false)
unfolding keep_idle
keep_idle_sound sid [] calls m = absurd (not-mem-nil m)
keep_idle_sound sid (x ∷ xs) calls m = elim (Bool-cases (session_in_call x calls)) [
  | inl in_call ↦
      let ih = keep_idle_sound sid xs calls (rw in_call at m) in (mem-cons_of_mem x ih.0, ih.1)
  | inr free ↦
      Or.elim (hlevel) (mem-cons.0 (rw free at m)) (λ e. (rw e mem-cons_self, rw e free))
        (λ m'. let ih = keep_idle_sound sid xs calls m' in (mem-cons_of_mem x ih.0, ih.1))
]

keep_idle_complete :
    (sid : Text) (sids : List Text) (calls : List Call)
    → Mem sid sids
    → session_in_call sid calls ≡ false
    → Mem sid (keep_idle sids calls)
unfolding keep_idle
keep_idle_complete sid [] calls m e = absurd (not-mem-nil m)
keep_idle_complete sid (x ∷ xs) calls m e = elim (Bool-cases (session_in_call x calls)) [
  | inl in_call ↦ rw in_call (
      Or.elim (hlevel) (mem-cons.0 m) (λ p. absurd (cc))
        (λ m'. keep_idle_complete sid xs calls m' e))
  | inr free ↦ rw free (
      Or.elim (hlevel) (mem-cons.0 m) (λ p. rw p mem-cons_self)
        (λ m'. mem-cons_of_mem x (keep_idle_complete sid xs calls m' e)))
]

not_in :
    (sid : Text) (calls : List Call) → (InCall sid calls → ⊥) → session_in_call sid calls ≡ false
not_in sid calls h = elim (Bool-cases (session_in_call sid calls)) [
  | inl e ↦ absurd (h (session_in_call-InCall sid calls e))
  | inr e ↦ e
]

-- In a registry whose indexes agree, a ring gives its event to the session object of an id exactly when the
-- session belongs to the account that is rung and takes part in no call: the event is then in the object's
-- buffer, unless the buffer was full; every other session object stays as it is.
pub ring_sessions-reaches :
    (callee : Text) (event : PhoneEvent) (s : Calls) (sid : Text) (p : ℕ)
    → InStep s.reg
    → find sid s.reg.session_index ≡ some p
    → (Mem sid (sessions_of callee s.reg)
        × (InCall sid s.calls → ⊥)
        × Rung event (s.reg.heap p) ((ring_sessions callee event s).reg.heap p))
      ⊎ ((Mem sid (sessions_of callee s.reg) → (InCall sid s.calls → ⊥) → ⊥)
          × ((ring_sessions callee event s).reg.heap p ≡ s.reg.heap p))
unfolding ring_sessions ringable_sessions Alone
ring_sessions-reaches callee event s sid p v found =
    elim (send_each_lem event sid p (ringable_sessions callee s) s.outside
      (found, λ t e. v.apart t sid p e found)) [
        | inl r ↦
            let k = keep_idle_sound sid (sessions_of callee s.reg) s.calls r.0 in
            inl (k.0, λ h. apart (InCall-session_in_call sid s.calls h) k.1, r.1)
        | inr r ↦ inr (
          λ m h.
              r.0 (
                keep_idle_complete sid (sessions_of callee s.reg) s.calls m (not_in sid s.calls h)),
          r.1,
        )
      ]
