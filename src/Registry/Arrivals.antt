-- ===== src/Registry/Arrivals.antt =====
-- internal/registry/registry.go, Register: a new session and the two indexes.
use retro_vax_bbs.Prelude.{
  ℕ, ◌+◌, ◌^◌, ◌≤◌, ◌<◌, Text, text_discrete, ◌≡◌, ◌≢◌, refl, sym, ap, none, some, Bool, false, [],
  arith, ite, ◌∙◌, ℕ_discrete,
}
use retro_vax_bbs.Dict.{find, put, find-put}
use retro_vax_bbs.Registry.Decimal.{format_uint}
use retro_vax_bbs.Registry.State.{Registry, Entry, entry_or, fresh_entry, write, register}
use retro_vax_bbs.Registry.Lockstep.{InStep, session_at, session_at-register, unminted}

module _ (u role : Text) (visible : Bool) (app : Text) (r : Registry) where
  abbrev pub out : Text × Registry
  out = register u role visible app r

  register_id : r.next_id + 1 < 2 ^ 64 → out.0 ≡ format_uint (r.next_id + 1)
  unfolding register
  register_id room = ap format_uint (omega arith)

  pub register_next : r.next_id + 1 < 2 ^ 64 → out.1.next_id ≡ r.next_id + 1
  unfolding register
  register_next room = omega arith

  register_index :
      (sid : Text)
      → find sid out.1.session_index
        ≡ ite (text_discrete out.0 sid) (some r.allocated) (find sid r.session_index)
  unfolding register
  register_index sid = find-put _ sid r.allocated r.session_index

  register_name :
      (p : ℕ) → (out.1.heap p).username ≡ ite (ℕ_discrete r.allocated p) u (r.heap p).username
  unfolding register write
  register_name p = ground arith

  register_account :
      (w : Text)
      → find w out.1.accounts
        ≡ ite
            (text_discrete u w)
            (some (record (entry_or (find u r.accounts) (fresh_entry role visible app)) {
              sessions =
                  put out.0 r.allocated
                    (entry_or (find u r.accounts) (fresh_entry role visible app)).sessions;
            }))
            (find w r.accounts)
  unfolding register
  register_account w = find-put u w _ r.accounts

  register_done :
      (p : ℕ) → (out.1.heap p).done ≡ ite (ℕ_discrete r.allocated p) false (r.heap p).done
  unfolding register write
  register_done p = ground arith

  register_allocated : out.1.allocated ≡ r.allocated + 1
  unfolding register
  register_allocated = refl

  -- From indexes in step, and while the ids are not exhausted, the id that a new session gets belongs to
  -- no session.
  pub register_fresh : InStep r → r.next_id + 1 < 2 ^ 64 → find out.0 r.session_index ≡ none
  register_fresh v room = rw (register_id room) (unminted r (r.next_id + 1) v (omega arith))

module _ (u role : Text) (visible : Bool) (app : Text) (r : Registry) (v : InStep r)
    (room : r.next_id + 1 < 2 ^ 64) where
  after : Registry
  after = (register u role visible app r).1

  name : Text
  name = (register u role visible app r).0

  indexed :
      (sid : Text) (p : ℕ)
      → find sid after.session_index ≡ some p
      → session_at (after.heap p).username sid after.accounts ≡ some p
  unfolding after name
  indexed sid p h = ground (
    arith,
    register_index u role visible app r sid,
    register_name u role visible app r p,
    session_at-register u role visible app r (after.heap p).username sid,
    v.indexed sid p,
    v.live sid p,
  )

  listed :
      (w sid : Text) (p : ℕ)
      → session_at w sid after.accounts ≡ some p
      → (find sid after.session_index ≡ some p) × ((after.heap p).username ≡ w)
  unfolding after name
  listed w sid p h = ground (
    arith,
    register_index u role visible app r sid,
    register_name u role visible app r p,
    session_at-register u role visible app r w sid,
    v.listed w sid p,
    v.live sid p,
    register_fresh u role visible app r v room,
  )

  live :
      (sid : Text) (p : ℕ)
      → find sid after.session_index ≡ some p
      → ((after.heap p).done ≡ false) × (p < after.allocated)
  unfolding after name
  live sid p h = ground (
    arith,
    register_index u role visible app r sid,
    register_done u role visible app r p,
    register_allocated u role visible app r,
    v.live sid p,
  )

  apart :
      (s t : Text) (p : ℕ)
      → find s after.session_index ≡ some p
      → find t after.session_index ≡ some p
      → s ≡ t
  unfolding after name
  apart s t p h k = ground (
    arith,
    register_index u role visible app r s,
    register_index u role visible app r t,
    v.live s p,
    v.live t p,
    v.apart s t p,
  )

  inhabited : (w : Text) (e : Entry) → find w after.accounts ≡ some e → e.sessions ≢ []
  unfolding after
  inhabited w e h none_left =
      ground (arith, register_account u role visible app r w, v.inhabited w e)

  minted :
      (sid : Text) (p : ℕ)
      → find sid after.session_index ≡ some p
      → (n : ℕ) × (sid ≡ format_uint n) × (n ≤ after.next_id)
  unfolding after
  minted sid p h = elim (text_discrete (register u role visible app r).0 sid) [
    | yes e ↦ (
      r.next_id + 1,
      sym e ∙ register_id u role visible app r room,
      omega (arith, register_next u role visible app r room),
    )
    | no e ↦
        let old = v.minted sid p (ground (arith, register_index u role visible app r sid)) in
        (old.0, old.1, omega (arith, old.2, register_next u role visible app r room))
  ]

  pub register-InStep : InStep (register u role visible app r).1
  unfolding after
  register-InStep = record {
    indexed = indexed;
    listed = listed;
    inhabited = inhabited;
    live = live;
    apart = apart;
    minted = minted;
  }
