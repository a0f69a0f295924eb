-- ===== src/Phone/Calls/Telling.antt =====
-- internal/phone/call.go: what ReapUnreachableRings tells the ringing side.
use mathlib.Core.List.{Mem}
use mathlib.Core.Option.{some-injective}
use retro_vax_bbs.Prelude.{
  ℕ, ◌≡◌, ◌≢◌, ◌⊎◌, ◌≤◌, refl, sym, ◌∙◌, ap, Text, text_discrete, true, false, none, some, List, [],
  ◌∷◌, ◌++◌, arith, length, length-append, Bool-cases, inl, inr, subst, if_pos, if_neg,
}
use retro_vax_bbs.Dict.{find}
use retro_vax_bbs.Registry.Event.{EventType, PhoneEvent, callee_gone, callee_unavailable}
use retro_vax_bbs.Registry.State.{
  Registry, SessionState, buffer_size, send_to_session, sessions_of, is_empty, connected,
}
use retro_vax_bbs.Registry.Delivery.{Delivers, send_lem, connected-sessions_of}
use retro_vax_bbs.Phone.Calls.State.{
  Call, Calls, Outside, Participant, PendingAdd, find_call, pending,
}
use retro_vax_bbs.Phone.Calls.Channels.{close, send}
use retro_vax_bbs.Phone.Calls.Admission.{rings_callee, ringable_sessions}
use retro_vax_bbs.Phone.Calls.Answering.{event}
use retro_vax_bbs.Phone.Calls.Leaving.{
  reap_adds, reap_all, reap_calls, reap_participants, reap_type, reap_unreachable_rings,
}
use retro_vax_bbs.Phone.Calls.Invariant.{Inv}
use retro_vax_bbs.Phone.Calls.Keeps.Reaping.{reap_all_lem, for_user}
use retro_vax_bbs.Phone.Calls.Tables.{without}
use retro_vax_bbs.Phone.Calls.Reaching.{mem-snoc, mem-more, same_index, send_object}
use retro_vax_bbs.Phone.Calls.Sends.{
  After, After-then, close-keeps, participants-keep, calls-keep, adds-keep,
}

-- A session object has an event in its buffer, or its buffer is full.
abbrev pub Told : PhoneEvent → SessionState → Type 0
Told e ss = Mem e ss.notify ⊎ (buffer_size ≤ length ss.notify)

Told-append :
    (e f : PhoneEvent) (ss : SessionState)
    → Told e ss
    → Told e (record ss { notify = ss.notify ++ f ∷ [] })
Told-append e f ss (inl m) = inl (mem-more ss.notify f e m)
Told-append e f ss (inr full) = inr (omega (arith, full, length-append ss.notify (f ∷ [])))

Told-send :
    (e : PhoneEvent) (p : ℕ) (x : Text) (f : PhoneEvent) (r : Registry)
    → Told e (r.heap p)
    → Told e ((send_to_session x f r).heap p)
Told-send e p x f r h = elim (send_object x f r p) [
  | inl q ↦ subst (Told e) (sym q) h
  | inr q ↦ subst (Told e) (sym q) (Told-append e f (r.heap p) h)
]

-- The index has the object p under an id.
abbrev At : Text → ℕ → Registry → Type 0
At sid p r = find sid r.session_index ≡ some p

At-send :
    (sid : Text) (p : ℕ) (x : Text) (e : PhoneEvent) (r : Registry)
    → At sid p r
    → At sid p (send_to_session x e r)
At-send sid p x e r h = ap (find sid) (same_index x e r) ∙ h

told_lem :
    (sid : Text) (p : ℕ) (e : PhoneEvent) (r : Registry)
    → At sid p r
    → Told e ((send_to_session sid e r).heap p)
told_lem sid p e r h = elim (send_lem sid e r) [
  | inl n ↦ absurd (let c : none ≡ some p = sym n.0 ∙ h in cc)
  | inr (q, found, delivered, others) ↦
      let same : q ≡ p = some-injective q p (sym found ∙ h) in
      elim (subst (λ z. Delivers e (r.heap z) ((send_to_session sid e r).heap z)) same delivered) [
        | inl room ↦ inl (
            subst (λ (ss : SessionState). Mem e ss.notify) (sym room.1)
              (mem-snoc (r.heap p).notify e))
        | inr full ↦
            inr (subst (λ (ss : SessionState). buffer_size ≤ length ss.notify) (sym full.1) full.0)
      ]
]

module _ (u : Text) (t : EventType) (sid : Text) (p : ℕ) where
  ToldOf : Call → Registry → Type 0
  ToldOf call r = Told (event t call.id call.caller u) (r.heap p)

  -- The first participant of a call that is reaped is told.
  first_told :
      (call : Call) (x : Participant) (ps : List Participant) (o : Outside)
      → call.participants ≡ x ∷ ps
      → x.session_id ≡ sid
      → At sid p o.reg
      → After
          (λ (o' : Outside). ToldOf call o'.reg)
          (reap_participants call.participants (event t call.id call.caller u) o)
  unfolding reap_participants ToldOf
  first_told call x ps o e k h =
      let ev = event t call.id call.caller u in
      subst (λ xs. After (λ (o' : Outside). Told ev (o'.reg.heap p)) (reap_participants xs ev o))
        (sym e)
        (After-then (λ (o' : Outside). At sid p o'.reg) _ (close x.incoming o) _
          (close-keeps (At sid p) (At-send sid p) x.incoming o h)
          (λ o1 h1.
            participants-keep (λ r. Told ev (r.heap p)) (Told-send ev p) ev ps
              (send x.session_id ev o1)
              (subst (λ i. Told ev ((send_to_session i ev o1.reg).heap p)) (sym k)
                (told_lem sid p ev o1.reg h1))))

  head_told :
      (call : Call) (x : Participant) (ps : List Participant) (cs : List Call) (o : Outside)
      → rings_callee u call ≡ true
      → call.participants ≡ x ∷ ps
      → x.session_id ≡ sid
      → At sid p o.reg
      → After (λ (r : List Call × Outside). ToldOf call r.1.reg) (reap_calls u t (call ∷ cs) o)
  unfolding reap_calls ToldOf
  head_told call x ps cs o k e s h =
      let ev = event t call.id call.caller u in
      rw k (
        After-then (λ (o' : Outside). At sid p o'.reg) _ (close call.stop_ring o) _
          (close-keeps (At sid p) (At-send sid p) call.stop_ring o h)
          (λ o1 h1.
            After-then (λ (o' : Outside). ToldOf call o'.reg) _
              (reap_participants call.participants ev o1) _ (first_told call x ps o1 e s h1)
              (λ o2 h2. calls-keep (ToldOf call) (λ y f r. Told-send ev p y f r) u t cs o2 h2)))

  calls_told :
      (call : Call) (x : Participant) (ps : List Participant) (cs : List Call) (o : Outside)
      → find_call call.id cs ≡ some call
      → rings_callee u call ≡ true
      → call.participants ≡ x ∷ ps
      → x.session_id ≡ sid
      → At sid p o.reg
      → After (λ (r : List Call × Outside). ToldOf call r.1.reg) (reap_calls u t cs o)
  unfolding reap_calls find_call
  calls_told call x ps [] o f k e s h = absurd (cc)
  calls_told call x ps (c ∷ cs) o f k e s h = elim (text_discrete c.id call.id) [
    | yes same_id ↦
        let here : c ≡ call =
          some-injective c call (
            sym (if_pos (text_discrete c.id call.id) same_id (some c) (find_call call.id cs))
            ∙ f) in
        subst
          (λ y.
            After (λ (r : List Call × Outside). ToldOf call r.1.reg) (reap_calls u t (y ∷ cs) o))
          (sym here) (head_told call x ps cs o k e s h)
    | no other ↦
        let later : find_call call.id cs ≡ some call =
          sym (if_neg (text_discrete c.id call.id) other (some c) (find_call call.id cs)) ∙ f in
        elim (Bool-cases (rings_callee u c)) [
          | inl q ↦ rw q (
              After-then (λ (o' : Outside). At sid p o'.reg) _ (close c.stop_ring o) _
                (close-keeps (At sid p) (At-send sid p) c.stop_ring o h)
                (λ o1 h1.
                  After-then (λ (o' : Outside). At sid p o'.reg) _
                    (reap_participants c.participants (event t c.id c.caller u) o1) _
                    (participants-keep (At sid p) (At-send sid p) (event t c.id c.caller u)
                      c.participants o1 h1)
                    (λ o2 h2. calls_told call x ps cs o2 later k e s h2)))
          | inr q ↦ rw q (
              After-then (λ (r : List Call × Outside). ToldOf call r.1.reg) _ (reap_calls u t cs o)
                _ (calls_told call x ps cs o later k e s h) (λ r h'. h'))
        ]
  ]

  all_told :
      (call : Call) (x : Participant) (ps : List Participant) (s : Calls)
      → find_call call.id s.calls ≡ some call
      → rings_callee u call ≡ true
      → call.participants ≡ x ∷ ps
      → x.session_id ≡ sid
      → At sid p s.reg
      → After (λ (s' : Calls). ToldOf call s'.reg) (reap_all u t s)
  unfolding reap_all ToldOf
  all_told call x ps s f k e i h =
      After-then (λ (r : List Call × Outside). ToldOf call r.1.reg) _
        (reap_calls u t s.calls s.outside) _ (calls_told call x ps s.calls s.outside f k e i h)
        (λ r h1.
          After-then (λ (r' : List PendingAdd × Outside). ToldOf call r'.1.reg) _
            (reap_adds u t r.0 s.pending_adds r.1) _
            (adds-keep (ToldOf call) (λ y g w. Told-send (event t call.id call.caller u) p y g w) u
              t r.0 s.pending_adds r.1 h1)
            (λ r' h2. h2))

nil_of_empty : (xs : List Text) → is_empty xs ≡ true → xs ≡ []
nil_of_empty [] e = refl
nil_of_empty (x ∷ xs) e = absurd (cc)

-- The event that tells why a ring cannot land.
abbrev pub Reason : Text → Registry → EventType → Type 0
Reason u r t =
    ((t ≡ callee_gone) × (sessions_of u r ≡ []))
    ⊎ ((t ≡ callee_unavailable) × (sessions_of u r ≢ []))

reap_type-Reason : (u : Text) (s : Calls) → Reason u s.reg (reap_type u s)
reap_type-Reason u s = elim (Bool-cases (connected u s.reg)) [
  | inl e ↦ rw e (inr (refl, λ n. ground (arith, connected-sessions_of u s.reg)))
  | inr e ↦ rw e (
      inl
        (refl, nil_of_empty (sessions_of u s.reg) (ground (arith, connected-sessions_of u s.reg))))
]

-- In a sound table, where no session of an account can be rung, a reap tells the first participant of each
-- call that rings the account and that nobody has answered, where that session is indexed: its buffer then
-- has the event for this call, unless the buffer is full. The event says that the callee is gone exactly
-- when the account has no session, and else that it cannot be reached.
pub reap_tells :
    (u : Text) (s : Calls) (call : Call) (x : Participant) (ps : List Participant) (p : ℕ)
    → Inv s
    → ringable_sessions u s ≡ []
    → find_call call.id s.calls ≡ some call
    → call.state ≡ pending
    → call.callee ≡ u
    → call.participants ≡ x ∷ ps
    → find x.session_id s.reg.session_index ≡ some p
    → (s' : Calls) × (t : EventType) × (reap_unreachable_rings u s ≡ some s')
      × Reason u s.reg t
      × Told (event t call.id call.caller u) (s'.reg.heap p)
unfolding reap_unreachable_rings ToldOf
reap_tells u s call x ps p v unreachable here st who e h =
    let t = reap_type u s in
    let r = reap_all_lem u t s v in
    let rings : rings_callee u call ≡ true =
      rw (st, if_pos (text_discrete call.callee u) who true false) refl in
    let told = all_told u t x.session_id p call x ps s here rings e refl h in
    (
      record s {
        calls = without (rings_callee u) s.calls;
        pending_adds = without (for_user u) s.pending_adds;
        outside = r.0;
      },
      t,
      rw unreachable r.1,
      reap_type-Reason u s,
      subst (After (λ (s' : Calls). Told (event t call.id call.caller u) (s'.reg.heap p))) r.1 told,
    )
