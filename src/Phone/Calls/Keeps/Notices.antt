-- ===== src/Phone/Calls/Keeps/Notices.antt =====
-- internal/phone/call.go: what Hangup and ReapUnreachableRings keep of the registry. They change it by
-- sends alone.
use retro_vax_bbs.Prelude.{
  ℕ, Text, Bool, true, false, not, Option, none, some, List, [], ◌∷◌, if◌then◌else◌, ◌>>=◌,
  Option-cases, Bool-cases, inl, inr,
}
use retro_vax_bbs.Registry.Event.{EventType, PhoneEvent, hangup}
use retro_vax_bbs.Registry.State.{Registry, send_to_session, sessions_of, is_empty}
use retro_vax_bbs.Phone.Calls.State.{
  Call, Calls, Outside, Participant, PendingAdd, is_pending, same, set_call,
}
use retro_vax_bbs.Phone.Calls.Channels.{
  close, close_chan, send, send_each, notify_account, session_ids,
}
use retro_vax_bbs.Phone.Calls.Admission.{ringable_sessions, rings_callee}
use retro_vax_bbs.Phone.Calls.Answering.{event}
use retro_vax_bbs.Phone.Calls.Leaving.{
  cancel_rings, tell_callee, stop_pending, tear_down, take_out, leave, hangup_locked, call_of,
  hangup_session, reap_participants, reap_calls, ring_audience, reap_adds, reap_type, reap_all,
  reap_unreachable_rings,
}

-- What holds of a result, if there is one.
abbrev pub Sure {ℓ} : {A : Type ℓ} → (A → Type 0) → Option A → Type 0
Sure P none = Unit
Sure P (some a) = P a

Sure-then {ℓ κ} :
    {A : Type ℓ} {B : Type κ} (P : A → Type 0) (R : B → Type 0) (m : Option A) (f : A → Option B)
    → Sure P m
    → ((a : A) → P a → Sure R (f a))
    → Sure R (m >>= f)
Sure-then P R none f h k = tt
Sure-then P R (some a) f h k = k a h

Sure-if {ℓ} :
    {A : Type ℓ} (P : A → Type 0) (b : Bool) (x y : Option A)
    → Sure P x
    → Sure P y
    → Sure P (if b then x else y)
Sure-if P true x y h k = h
Sure-if P false x y h k = k

-- A property of the registry that every send keeps.
module _ (Q : Registry → Type 0)
    (kept : (sid : Text) (ev : PhoneEvent) (r : Registry)
      → Q r
      → Q (send_to_session sid ev r)) where
  abbrev Outer : Outside → Type 0
  Outer o = Q o.reg

  abbrev pub After : Calls → Type 0
  After s = Q s.reg

  close-Outer : (h : ℕ) (o : Outside) → Q o.reg → Sure Outer (close h o)
  unfolding close
  close-Outer h o q = elim (Option-cases (close_chan h o.chans)) [
    | inl e ↦ rw e tt
    | inr (cs, e) ↦ rw e q
  ]

  send_each-kept :
      (sids : List Text) (ev : PhoneEvent) (o : Outside) → Q o.reg → Q (send_each sids ev o).reg
  unfolding send_each
  send_each-kept [] ev o q = q
  send_each-kept (sid ∷ sids) ev o q = send_each-kept sids ev (send sid ev o) (kept sid ev o.reg q)

  notify_account-kept :
      (u : Text) (ev : PhoneEvent) (o : Outside) → Q o.reg → Q (notify_account u ev o).reg
  unfolding notify_account
  notify_account-kept u ev o q = send_each-kept (sessions_of u o.reg) ev o q

  cancel_rings-kept :
      (id : Text) (adds : List PendingAdd) (o : Outside)
      → Q o.reg
      → Sure (λ (p : List PendingAdd × Outside). Q p.1.reg) (cancel_rings id adds o)
  unfolding cancel_rings
  cancel_rings-kept id [] o q = q
  cancel_rings-kept id (a ∷ rest) o q =
      Sure-if (λ (p : List PendingAdd × Outside). Q p.1.reg) (same a.call_id id) _ _
        (Sure-then Outer (λ (p : List PendingAdd × Outside). Q p.1.reg) (close a.stop o) _
          (close-Outer a.stop o q)
          (λ o' q'.
            cancel_rings-kept id rest
              (notify_account a.callee (event hangup id a.inviter a.callee) o')
              (notify_account-kept a.callee (event hangup id a.inviter a.callee) o' q')))
        (Sure-then (λ (p : List PendingAdd × Outside). Q p.1.reg)
          (λ (p : List PendingAdd × Outside). Q p.1.reg) (cancel_rings id rest o) _
          (cancel_rings-kept id rest o q) (λ p q'. q'))

  tell_callee-kept : (call : Call) (u : Text) (o : Outside) → Q o.reg → Q (tell_callee call u o).reg
  unfolding tell_callee
  tell_callee-kept call u o q = elim (Bool-cases (is_empty call.callee)) [
    | inl e ↦ rw e q
    | inr e ↦ rw e (notify_account-kept call.callee (event hangup call.id u call.callee) o q)
  ]

  stop_pending-kept :
      (call : Call) (u : Text) (o : Outside) → Q o.reg → Sure Outer (stop_pending call u o)
  unfolding stop_pending
  stop_pending-kept call u o q =
      Sure-if Outer (is_pending call.state) _ _
        (Sure-then Outer Outer (close call.stop_ring o) _ (close-Outer call.stop_ring o q)
          (λ o' q'. tell_callee-kept call u o' q'))
        q

  tear_down-kept : (call : Call) (u : Text) (s : Calls) → Q s.reg → Sure After (tear_down call u s)
  unfolding tear_down
  tear_down-kept call u s q =
      Sure-then Outer After (stop_pending call u s.outside) _ (stop_pending-kept call u s.outside q)
        (λ o q'.
          Sure-then (λ (p : List PendingAdd × Outside). Q p.1.reg) After
            (cancel_rings call.id s.pending_adds o) _
            (cancel_rings-kept call.id s.pending_adds o q') (λ p q2. q2))

  leave-kept :
      (call : Call) (p : Participant) (rest : List Participant) (s : Calls)
      → Q s.reg
      → Sure After (leave call p rest s)
  unfolding leave
  leave-kept call p rest s q =
      Sure-then Outer After (close p.incoming s.outside) _ (close-Outer p.incoming s.outside q)
        (λ o q'.
          let call' = record call { participants = rest } in
          let told = send_each (session_ids rest) (event hangup call.id p.username []) o in
          let s' : Calls = record s { calls = set_call call' s.calls; outside = told } in
          let q2 = send_each-kept (session_ids rest) (event hangup call.id p.username []) o q' in
          Sure-if After (is_empty rest) _ _ (tear_down-kept call' p.username s' q2) q2)

  pub hangup_session-kept : (sid : Text) (s : Calls) → Q s.reg → Sure After (hangup_session sid s)
  unfolding hangup_session hangup_locked
  hangup_session-kept sid s q = elim (Option-cases (call_of sid s.calls)) [
    | inl e ↦ rw (e, hangup_session) q
    | inr (call, e) ↦ elim (Option-cases (take_out sid call.participants)) [
      | inl f ↦ rw (e, hangup_session, f, hangup_locked) q
      | inr ((p, rest), f) ↦ rw (e, hangup_session, f, hangup_locked) (leave-kept call p rest s q)
    ]
  ]

  reap_participants-kept :
      (ps : List Participant) (ev : PhoneEvent) (o : Outside)
      → Q o.reg
      → Sure Outer (reap_participants ps ev o)
  unfolding reap_participants
  reap_participants-kept [] ev o q = q
  reap_participants-kept (p ∷ ps) ev o q =
      Sure-then Outer Outer (close p.incoming o) _ (close-Outer p.incoming o q) (λ o' q'.
        reap_participants-kept ps ev (send p.session_id ev o') (kept p.session_id ev o'.reg q'))

  reap_calls-kept :
      (u : Text) (type : EventType) (cs : List Call) (o : Outside)
      → Q o.reg
      → Sure (λ (p : List Call × Outside). Q p.1.reg) (reap_calls u type cs o)
  unfolding reap_calls
  reap_calls-kept u type [] o q = q
  reap_calls-kept u type (c ∷ cs) o q =
      Sure-if (λ (p : List Call × Outside). Q p.1.reg) (rings_callee u c) _ _
        (Sure-then Outer (λ (p : List Call × Outside). Q p.1.reg) (close c.stop_ring o) _
          (close-Outer c.stop_ring o q)
          (λ o1 q1.
            Sure-then Outer (λ (p : List Call × Outside). Q p.1.reg)
              (reap_participants c.participants (event type c.id c.caller u) o1) _
              (reap_participants-kept c.participants (event type c.id c.caller u) o1 q1)
              (λ o2 q2. reap_calls-kept u type cs o2 q2)))
        (Sure-then (λ (p : List Call × Outside). Q p.1.reg) (λ (p : List Call × Outside). Q p.1.reg)
          (reap_calls u type cs o) _ (reap_calls-kept u type cs o q) (λ p q'. q'))

  reap_adds-kept :
      (u : Text) (type : EventType) (cs : List Call) (adds : List PendingAdd) (o : Outside)
      → Q o.reg
      → Sure (λ (p : List PendingAdd × Outside). Q p.1.reg) (reap_adds u type cs adds o)
  unfolding reap_adds
  reap_adds-kept u type cs [] o q = q
  reap_adds-kept u type cs (a ∷ rest) o q =
      let told = λ (o' : Outside).
        send_each (ring_audience a.call_id cs) (event type a.call_id a.inviter u) o' in
      Sure-if (λ (p : List PendingAdd × Outside). Q p.1.reg) (same a.callee u) _ _
        (Sure-then Outer (λ (p : List PendingAdd × Outside). Q p.1.reg) (close a.stop o) _
          (close-Outer a.stop o q)
          (λ o' q'.
            reap_adds-kept u type cs rest (told o') (
              send_each-kept (ring_audience a.call_id cs) (event type a.call_id a.inviter u) o'
                q')))
        (Sure-then (λ (p : List PendingAdd × Outside). Q p.1.reg)
          (λ (p : List PendingAdd × Outside). Q p.1.reg) (reap_adds u type cs rest o) _
          (reap_adds-kept u type cs rest o q) (λ p q'. q'))

  reap_all-kept :
      (u : Text) (type : EventType) (s : Calls) → Q s.reg → Sure After (reap_all u type s)
  unfolding reap_all
  reap_all-kept u type s q =
      Sure-then (λ (p : List Call × Outside). Q p.1.reg) After (reap_calls u type s.calls s.outside)
        _ (reap_calls-kept u type s.calls s.outside q)
        (λ p q1.
          Sure-then (λ (r : List PendingAdd × Outside). Q r.1.reg) After
            (reap_adds u type p.0 s.pending_adds p.1) _
            (reap_adds-kept u type p.0 s.pending_adds p.1 q1) (λ r q2. q2))

  pub reap_unreachable_rings-kept :
      (u : Text) (s : Calls) → Q s.reg → Sure After (reap_unreachable_rings u s)
  unfolding reap_unreachable_rings
  reap_unreachable_rings-kept u s q =
      Sure-if After (not (is_empty (ringable_sessions u s))) _ _ q
        (reap_all-kept u (reap_type u s) s q)
