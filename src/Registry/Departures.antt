-- ===== src/Registry/Departures.antt =====
-- internal/registry/registry.go, Unregister: a departure, the two indexes and the done channel.
use retro_vax_bbs.Prelude.{
  ℕ, ◌<◌, Text, ◌≡◌, ◌≢◌, refl, none, some, true, false, [], arith, Option-cases, inl, inr,
}
use retro_vax_bbs.Dict.{find, delete, find-delete, find-put}
use retro_vax_bbs.Registry.State.{Registry, Entry, write, unregister, drop_session}
use retro_vax_bbs.Registry.Lockstep.{
  InStep, session_at, session_at-drop, drop_session-none, drop_session_lem,
}

-- The registry that Unregister leaves when the session is known.
abbrev departed : Text → ℕ → Registry → Registry
departed sid p r = record r {
  accounts = drop_session sid (r.heap p).username r.accounts;
  session_index = delete sid r.session_index;
  heap = write p (record (r.heap p) { done = true }) r.heap;
}

unregister_known :
    (sid : Text) (p : ℕ) (r : Registry)
    → find sid r.session_index ≡ some p
    → (r.heap p).done ≡ false
    → unregister sid r ≡ some (departed sid p r)
unfolding unregister
unregister_known sid p r e open_still = ground arith

drop_session_inhabited :
    (sid u : Text) (r : Registry) (w : Text) (e : Entry)
    → InStep r
    → find w (drop_session sid u r.accounts) ≡ some e
    → e.sessions ≢ []
drop_session_inhabited sid u r w e v h none_left = elim (Option-cases (find u r.accounts)) [
  | inl a ↦ ground (arith, drop_session-none sid u r.accounts a, v.inhabited w e)
  | inr (en, a) ↦ ground (
    arith,
    drop_session_lem sid u r.accounts en a,
    find-delete u w r.accounts,
    find-put u w (record en { sessions = delete sid en.sessions }) r.accounts,
    v.inhabited w e,
  )
]

module _ (sid : Text) (p : ℕ) (r : Registry) (v : InStep r)
    (known : find sid r.session_index ≡ some p) where
  write_name :
      (q : ℕ)
      → (write p (record (r.heap p) { done = true }) r.heap q).username ≡ (r.heap q).username
  unfolding write
  write_name q = ground arith

  departed_indexed :
      (t : Text) (q : ℕ)
      → find t (delete sid r.session_index) ≡ some q
      → session_at (r.heap q).username t (drop_session sid (r.heap p).username r.accounts) ≡ some q
  departed_indexed t q h = ground (
    arith,
    find-delete sid t r.session_index,
    session_at-drop sid (r.heap p).username r.accounts (r.heap q).username t,
    v.indexed t q,
  )

  departed_listed :
      (w t : Text) (q : ℕ)
      → session_at w t (drop_session sid (r.heap p).username r.accounts) ≡ some q
      → (find t (delete sid r.session_index) ≡ some q) × ((r.heap q).username ≡ w)
  departed_listed w t q h = ground (
    arith,
    find-delete sid t r.session_index,
    session_at-drop sid (r.heap p).username r.accounts w t,
    v.listed w t q,
    known,
  )

  departed_live :
      (t : Text) (q : ℕ)
      → find t (delete sid r.session_index) ≡ some q
      → ((write p (record (r.heap p) { done = true }) r.heap q).done ≡ false) × (q < r.allocated)
  unfolding write
  departed_live t q h =
      ground (arith, find-delete sid t r.session_index, v.live t q, v.apart sid t p, known)

  departed-InStep : InStep (departed sid p r)
  departed-InStep = record {
    indexed = λ t q h. rw (write_name q) (departed_indexed t q h);
    listed = λ w t q h. rw (write_name q) (departed_listed w t q h);
    inhabited = λ w e. drop_session_inhabited sid (r.heap p).username r w e v;
    live = departed_live;
    apart = λ s t q h k. ground (
      arith,
      find-delete sid s r.session_index,
      find-delete sid t r.session_index,
      v.apart s t q,
    );
    minted = λ t q h. v.minted t q (ground (arith, find-delete sid t r.session_index));
  }

-- The state that Unregister returns.
pub unregister_safe :
    (sid : Text) (r : Registry)
    → InStep r
    → (r' : Registry) × (unregister sid r ≡ some r')
      × InStep r'
      × (r'.next_id ≡ r.next_id)
      × (find sid r'.session_index ≡ none)
      × ((t : Text) → t ≢ sid → find t r'.session_index ≡ find t r.session_index)
unfolding unregister
unregister_safe sid r v = elim (Option-cases (find sid r.session_index)) [
  | inl absent ↦ (r, ground arith, v, refl, absent, λ t h. refl)
  | inr (p, known) ↦ (
    departed sid p r,
    unregister_known sid p r known (v.live sid p known).0,
    departed-InStep sid p r v known,
    refl,
    ground (arith, find-delete sid sid r.session_index),
    λ t h. ground (arith, find-delete sid t r.session_index),
  )
]

-- From indexes in step Unregister of a session never panics; it keeps them in step, forgets the session,
-- and leaves every other session where it was.
pub unregister-InStep :
    (sid other : Text) (r : Registry)
    → other ≢ sid
    → InStep r
    → (r' : Registry) × (unregister sid r ≡ some r')
      × InStep r'
      × (find sid r'.session_index ≡ none)
      × (find other r'.session_index ≡ find other r.session_index)
unregister-InStep sid other r apart v =
    let u = unregister_safe sid r v in (u.0, u.1, u.2, u.4, u.5 other apart)
