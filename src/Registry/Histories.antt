-- ===== src/Registry/Histories.antt =====
-- internal/registry/registry.go: histories of the registry, with every method that changes it.
use retro_vax_bbs.Prelude.{
  ℕ, ◌+◌, ◌^◌, ◌<◌, ◌≤◌, Text, text_discrete, codes, ◌≡◌, ◌≢◌, refl, Option, some, Bool, List, [],
  ◌∷◌, arith, ite, Option-cases, inl, inr, sym, ◌∙◌, ◌>>=◌, length,
}
use retro_vax_bbs.Dict.{Dict, find, put, find-put}
use retro_vax_bbs.Registry.Event.{PhoneEvent}
use retro_vax_bbs.Registry.State.{
  Registry, Entry, SessionState, init, write, register, unregister, set_app, offer, send_to_session,
  set_kick, notify_sessions, notify_accounts, notify_admins,
}
use retro_vax_bbs.Registry.Lockstep.{InStep, session_at, session_in, session_at-put}
use retro_vax_bbs.Registry.Arrivals.{register-InStep, register_next}
use retro_vax_bbs.Registry.Departures.{unregister_safe}

pub data Call : Type 0 where
  registers : Text → Text → Bool → Text → Call
  unregisters : Text → Call
  sets_app : Text → Text → Call
  sends : Text → PhoneEvent → Call
  sets_kick : Text → ℕ → Call
  notifies : PhoneEvent → Call

unfoldable pub step : Call → Registry → Option Registry
step (registers u role visible app) r = some (register u role visible app r).1
step (unregisters sid) r = unregister sid r
step (sets_app u app) r = some (set_app u app r)
step (sends sid event) r = some (send_to_session sid event r)
step (sets_kick sid hook) r = some (set_kick sid hook r)
step (notifies event) r = some (notify_admins event r)

unfoldable pub run : List Call → Registry → Option Registry
unfolding step
run [] r = some r
run (c ∷ cs) r = step c r >>= run cs

-- Writes that keep the owners and the done channels of all session objects.
abbrev SameOwners : (ℕ → SessionState) → (ℕ → SessionState) → Type 0
SameOwners h h' = (p : ℕ) → ((h' p).username ≡ (h p).username) × ((h' p).done ≡ (h p).done)

heap-InStep :
    (r : Registry) (h : ℕ → SessionState)
    → SameOwners r.heap h
    → InStep r
    → InStep (record r { heap = h })
heap-InStep r h same v = record {
  indexed = λ sid p e. rw (same p).0 (v.indexed sid p e);
  listed = λ u sid p e. rw (same p).0 (v.listed u sid p e);
  inhabited = v.inhabited;
  live = λ sid p e. rw (same p).1 (v.live sid p e);
  apart = v.apart;
  minted = v.minted;
}

offer-SameOwners :
    (event : PhoneEvent) (p : ℕ) (h : ℕ → SessionState)
    → SameOwners h (write p (offer event (h p)) h)
unfolding write offer
offer-SameOwners event p h q = ground arith

pub send-InStep :
    (sid : Text) (event : PhoneEvent) (r : Registry)
    → InStep r
    → InStep (send_to_session sid event r)
unfolding send_to_session
send-InStep sid event r v = elim (Option-cases (find sid r.session_index)) [
  | inl e ↦ rw (e, send_to_session) v
  | inr (p, e) ↦ rw (e, send_to_session) (heap-InStep r _ (offer-SameOwners event p r.heap) v)
]

kick-SameOwners :
    (hook p : ℕ) (h : ℕ → SessionState)
    → SameOwners h (write p (record (h p) { kick = some hook }) h)
unfolding write
kick-SameOwners hook p h q = ground arith

set_kick-InStep : (sid : Text) (hook : ℕ) (r : Registry) → InStep r → InStep (set_kick sid hook r)
unfolding set_kick
set_kick-InStep sid hook r v = elim (Option-cases (find sid r.session_index)) [
  | inl e ↦ rw (e, set_kick) v
  | inr (p, e) ↦ rw (e, set_kick) (heap-InStep r _ (kick-SameOwners hook p r.heap) v)
]

notify_sessions-SameOwners :
    (event : PhoneEvent) (ss : Dict ℕ) (h : ℕ → SessionState)
    → SameOwners h (notify_sessions event ss h)
unfolding notify_sessions
notify_sessions-SameOwners event [] h q = (refl, refl)
notify_sessions-SameOwners event ((sid, p) ∷ rest) h q = ground (
  arith,
  notify_sessions-SameOwners event rest (write p (offer event (h p)) h) q,
  offer-SameOwners event p h q,
)

notify_accounts-SameOwners :
    (event : PhoneEvent) (m : Dict Entry) (h : ℕ → SessionState)
    → SameOwners h (notify_accounts event m h)
unfolding notify_accounts
notify_accounts-SameOwners event [] h q = (refl, refl)
notify_accounts-SameOwners event ((u, e) ∷ rest) h q = ground (
  arith,
  notify_accounts-SameOwners event rest
      (ite (text_discrete e.role (codes "admin")) (notify_sessions event e.sessions h) h) q,
  notify_sessions-SameOwners event e.sessions h q,
)

relabel : Text → Entry → Text → Dict Entry → Dict Entry
relabel u en app m = put u (record en { current_app = app }) m

session_at-relabel :
    (u : Text) (en : Entry) (app : Text) (m : Dict Entry) (w sid : Text)
    → find u m ≡ some en
    → session_at w sid (relabel u en app m) ≡ session_at w sid m
unfolding relabel session_in
session_at-relabel u en app m w sid e =
    ground (arith, session_at-put u (record en { current_app = app }) m w sid)

relabel-inhabited :
    (u : Text) (en : Entry) (app : Text) (r : Registry) (w : Text) (e : Entry)
    → InStep r
    → find u r.accounts ≡ some en
    → find w (relabel u en app r.accounts) ≡ some e
    → e.sessions ≢ []
unfolding relabel
relabel-inhabited u en app r w e v f h none_left = ground (
  arith,
  find-put u w (record en { current_app = app }) r.accounts,
  v.inhabited w e,
  v.inhabited u en,
)

set_app-InStep : (u app : Text) (r : Registry) → InStep r → InStep (set_app u app r)
unfolding set_app relabel
set_app-InStep u app r v = elim (Option-cases (find u r.accounts)) [
  | inl e ↦ rw (e, set_app) v
  | inr (en, e) ↦
      rw (e, set_app)
        (record {
          indexed = λ sid p h. session_at-relabel u en app r.accounts _ sid e ∙ v.indexed sid p h;
          listed = λ w sid p h.
              v.listed w sid p (sym (session_at-relabel u en app r.accounts w sid e) ∙ h);
          inhabited = λ w en' h. relabel-inhabited u en app r w en' v e h;
          live = v.live;
          apart = v.apart;
          minted = v.minted;
        })
]

set_app_next : (u app : Text) (r : Registry) → (set_app u app r).next_id ≡ r.next_id
unfolding set_app
set_app_next u app r = ground arith

send_next :
    (sid : Text) (event : PhoneEvent) (r : Registry)
    → (send_to_session sid event r).next_id ≡ r.next_id
unfolding send_to_session
send_next sid event r = ground arith

set_kick_next : (sid : Text) (hook : ℕ) (r : Registry) → (set_kick sid hook r).next_id ≡ r.next_id
unfolding set_kick
set_kick_next sid hook r = ground arith

-- What a call from indexes in step does: it returns, keeps them in step and gives out one id at most.
abbrev pub Safe : Registry → Option Registry → Type 0
Safe r o = (r' : Registry) × (o ≡ some r') × InStep r' × (r'.next_id ≤ r.next_id + 1)

step-Safe : (c : Call) (r : Registry) → InStep r → r.next_id + 1 < 2 ^ 64 → Safe r (step c r)
unfolding step
step-Safe (registers u role visible app) r v room = (
  (register u role visible app r).1,
  refl,
  register-InStep u role visible app r v room,
  omega (arith, register_next u role visible app r room),
)
step-Safe (unregisters sid) r v room =
    let s = unregister_safe sid r v in (s.0, s.1, s.2, omega (arith, s.3))
step-Safe (sets_app u app) r v room =
    (set_app u app r, refl, set_app-InStep u app r v, omega (arith, set_app_next u app r))
step-Safe (sends sid event) r v room = (
  send_to_session sid event r,
  refl,
  send-InStep sid event r v,
  omega (arith, send_next sid event r),
)
step-Safe (sets_kick sid hook) r v room = (
  set_kick sid hook r,
  refl,
  set_kick-InStep sid hook r v,
  omega (arith, set_kick_next sid hook r),
)
step-Safe (notifies event) r v room = (
  notify_admins event r,
  refl,
  unfold notify_admins in heap-InStep r _ (notify_accounts-SameOwners event r.accounts r.heap) v,
  unfold notify_admins in omega arith,
)

-- From indexes in step a history that cannot exhaust the ids never panics, and keeps them in step.
pub run-InStep :
    (cs : List Call) (r : Registry)
    → InStep r
    → r.next_id + length cs < 2 ^ 64
    → (r' : Registry) × (run cs r ≡ some r') × InStep r'
unfolding run
run-InStep [] r v room = (r, refl, v)
run-InStep (c ∷ cs) r v room =
    let s = step-Safe c r v (omega arith) in
    let rest = run-InStep cs s.0 s.2 (omega (arith, s.3)) in (rest.0, rw s.1 rest.1, rest.2)

pub init-InStep : InStep init
unfolding init find session_in
init-InStep = record {
  indexed = λ sid p e. cc;
  listed = λ u sid p e. cc;
  inhabited = λ u en e. cc;
  live = λ sid p e. cc;
  apart = λ s t p h k. cc;
  minted = λ sid p e. cc;
}
