-- ===== src/Phone/Calls/Sends.antt =====
-- internal/phone/call.go: what holds of the registry after every send, holds after ReapUnreachableRings.
use retro_vax_bbs.Prelude.{
  ℕ, ◌≡◌, refl, sym, Text, Option, none, some, List, [], ◌∷◌, Option-cases, Bool-cases, inl, inr,
  subst, ◌>>=◌,
}
use retro_vax_bbs.Registry.Event.{EventType, PhoneEvent}
use retro_vax_bbs.Registry.State.{Registry, send_to_session}
use retro_vax_bbs.Phone.Calls.State.{Call, Outside, Participant, PendingAdd, same}
use retro_vax_bbs.Phone.Calls.Channels.{close, close_chan, send, send_each}
use retro_vax_bbs.Phone.Calls.Admission.{rings_callee}
use retro_vax_bbs.Phone.Calls.Answering.{event}
use retro_vax_bbs.Phone.Calls.Leaving.{reap_adds, reap_calls, reap_participants, ring_audience}

-- What holds of a result, where there is one.
abbrev pub After {ℓ} : {A : Type ℓ} → (A → Type 0) → Option A → Type 0
After P none = Unit
After P (some x) = P x

pub After-then :
    {A B : Type 0} (P : A → Type 0) (Q : B → Type 0) (o : Option A) (f : A → Option B)
    → After P o
    → ((x : A) → P x → After Q (f x))
    → After Q (o >>= f)
After-then P Q none f h k = tt
After-then P Q (some x) f h k = k x h

pub close-reg : (k : ℕ) (o : Outside) → After (λ o'. o'.reg ≡ o.reg) (close k o)
unfolding close
close-reg k o = elim (Option-cases (close_chan k o.chans)) [
  | inl e ↦ rw (e, close) tt
  | inr (cs, e) ↦ rw (e, close) refl
]

-- What sends keep, a reap keeps.
module _ (P : Registry → Type 0)
    (sent : (x : Text) (e : PhoneEvent) (r : Registry) → P r → P (send_to_session x e r)) where
  pub each-keeps :
      (e : PhoneEvent) (xs : List Text) (o : Outside) → P o.reg → P (send_each xs e o).reg
  unfolding send_each
  each-keeps e [] o h = h
  each-keeps e (x ∷ xs) o h = each-keeps e xs (send x e o) (sent x e o.reg h)

  pub close-keeps : (k : ℕ) (o : Outside) → P o.reg → After (λ (o' : Outside). P o'.reg) (close k o)
  close-keeps k o h =
      elim (close k o)
          as (λ c.
            After (λ (o' : Outside). o'.reg ≡ o.reg) c → After (λ (o' : Outside). P o'.reg) c) [
              | none ↦ λ q. tt
              | some o' ↦ λ q. subst P (sym q) h
            ]
        (close-reg k o)

  pub participants-keep :
      (e : PhoneEvent) (ps : List Participant) (o : Outside)
      → P o.reg
      → After (λ (o' : Outside). P o'.reg) (reap_participants ps e o)
  unfolding reap_participants
  participants-keep e [] o h = h
  participants-keep e (p ∷ ps) o h =
      After-then (λ (o' : Outside). P o'.reg) (λ (o' : Outside). P o'.reg) (close p.incoming o) _
        (close-keeps p.incoming o h)
        (λ o' h'. participants-keep e ps (send p.session_id e o') (sent p.session_id e o'.reg h'))

  pub calls-keep :
      (u : Text) (t : EventType) (cs : List Call) (o : Outside)
      → P o.reg
      → After (λ (r : List Call × Outside). P r.1.reg) (reap_calls u t cs o)
  unfolding reap_calls
  calls-keep u t [] o h = h
  calls-keep u t (c ∷ cs) o h = elim (Bool-cases (rings_callee u c)) [
    | inl e ↦ rw e (
        After-then (λ (o' : Outside). P o'.reg) _ (close c.stop_ring o) _
          (close-keeps c.stop_ring o h)
          (λ o1 h1.
            After-then (λ (o' : Outside). P o'.reg) _
              (reap_participants c.participants (event t c.id c.caller u) o1) _
              (participants-keep (event t c.id c.caller u) c.participants o1 h1)
              (λ o2 h2. calls-keep u t cs o2 h2)))
    | inr e ↦ rw e (
        After-then (λ (r : List Call × Outside). P r.1.reg) _ (reap_calls u t cs o) _
          (calls-keep u t cs o h) (λ r h'. h'))
  ]

  pub adds-keep :
      (u : Text) (t : EventType) (cs : List Call) (adds : List PendingAdd) (o : Outside)
      → P o.reg
      → After (λ (r : List PendingAdd × Outside). P r.1.reg) (reap_adds u t cs adds o)
  unfolding reap_adds
  adds-keep u t cs [] o h = h
  adds-keep u t cs (a ∷ rest) o h = elim (Bool-cases (same a.callee u)) [
    | inl e ↦ rw e (
        After-then (λ (o' : Outside). P o'.reg) _ (close a.stop o) _ (close-keeps a.stop o h)
          (λ o1 h1.
            adds-keep u t cs rest
              (send_each (ring_audience a.call_id cs) (event t a.call_id a.inviter u) o1)
              (each-keeps (event t a.call_id a.inviter u) (ring_audience a.call_id cs) o1 h1)))
    | inr e ↦ rw e (
        After-then (λ (r : List PendingAdd × Outside). P r.1.reg) _ (reap_adds u t cs rest o) _
          (adds-keep u t cs rest o h) (λ r h'. h'))
  ]
