-- ===== src/Registry/Delivery.antt =====
-- internal/registry/registry.go, SendToSession, Events, SessionsOf, Connected: what a send changes,
-- and what the PHONE layer may rely on.
use retro_vax_bbs.Prelude.{
  ℕ, ◌<◌, ◌≤◌, Text, ◌≡◌, ◌⊎◌, refl, none, some, not, [], ◌∷◌, ◌++◌, arith, Option-cases, inl, inr,
  ℕ_discrete, length, ltb,
}
use retro_vax_bbs.Dict.{Dict, find, keys}
use retro_vax_bbs.Registry.Event.{PhoneEvent}
use retro_vax_bbs.Registry.State.{
  Registry, SessionState, write, send_to_session, sessions_of, connected, buffer_size, is_empty,
}

module _ (sid : Text) (event : PhoneEvent) (r : Registry) where
  accounts-send : (send_to_session sid event r).accounts ≡ r.accounts
  unfolding send_to_session
  accounts-send = ground arith

  -- A send changes no account's sessions.
  pub sessions_of-send : (u : Text) → sessions_of u (send_to_session sid event r) ≡ sessions_of u r
  unfolding sessions_of
  sessions_of-send u = rw accounts-send

  pub connected-send : (u : Text) → connected u (send_to_session sid event r) ≡ connected u r
  unfolding connected
  connected-send u = rw accounts-send

-- The list of ids is empty exactly if the map is.
keys-empty : (m : Dict ℕ) → ltb 0 (length m) ≡ not (is_empty (keys m))
keys-empty [] = refl
keys-empty (e ∷ m) = ground arith

-- Connected and SessionsOf agree: an account is connected exactly while it has a session to ring.
pub connected-sessions_of :
    (u : Text) (r : Registry) → connected u r ≡ not (is_empty (sessions_of u r))
unfolding connected sessions_of
connected-sessions_of u r = elim (Option-cases (find u r.accounts)) [
  | inl e ↦ ground arith
  | inr (en, e) ↦ ground (arith, keys-empty en.sessions)
]

-- What a send does to a session object.
abbrev pub Delivers : PhoneEvent → SessionState → SessionState → Type 0
Delivers event before after =
    ((length before.notify < buffer_size)
      × (after ≡ record before { notify = before.notify ++ event ∷ [] }))
    ⊎ ((buffer_size ≤ length before.notify) × (after ≡ before))

-- A send to a session that is indexed appends the event to that session's buffer, or drops it if
-- the buffer is full, and leaves every other session object alone; a send to an unknown session
-- changes nothing.
pub send_lem :
    (sid : Text) (event : PhoneEvent) (r : Registry)
    → ((find sid r.session_index ≡ none) × (send_to_session sid event r ≡ r))
      ⊎ ((p : ℕ) × (find sid r.session_index ≡ some p)
          × Delivers event (r.heap p) ((send_to_session sid event r).heap p)
          × ((q : ℕ) → (q ≡ p) ⊎ ((send_to_session sid event r).heap q ≡ r.heap q)))
unfolding send_to_session write
send_lem sid event r = elim (Option-cases (find sid r.session_index)) [
  | inl e ↦ inl (e, ground arith)
  | inr (p, e) ↦ inr (
    p,
    e,
    ground arith,
    λ q. elim (ℕ_discrete q p) [ yes same ↦ inl same | no other ↦ inr (ground arith) ],
  )
]
