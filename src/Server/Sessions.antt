-- ===== src/Server/Sessions.antt =====
-- cmd/server/main.go: sessionMiddleware, the start and the end of a session over the registry and the
-- call table of PHONE.
use retro_vax_bbs.Prelude.{
  ℕ, ◌≡◌, ◌≢◌, refl, ◌∙◌, subst, Text, codes, Option, none, some, ◌>>=◌, Option-cases, inl, inr,
}
use retro_vax_bbs.Dict.{find}
use retro_vax_bbs.Registry.State.{Registry, register, unregister, set_kick, send_to_session}
use retro_vax_bbs.Registry.Lockstep.{InStep}
use retro_vax_bbs.Registry.Departures.{unregister_safe}
use retro_vax_bbs.Registry.Event.{PhoneEvent}
use retro_vax_bbs.Registry.Histories.{send-InStep}
use retro_vax_bbs.Phone.Calls.Keeps.Notices.{Sure, hangup_session-kept, reap_unreachable_rings-kept}
use retro_vax_bbs.Phone.Calls.State.{Calls}
use retro_vax_bbs.Phone.Calls.Leaving.{hangup_session, reap_unreachable_rings}
use retro_vax_bbs.Phone.Calls.Invariant.{Inv}
use retro_vax_bbs.Phone.Calls.Histories.{Stays-some}
use retro_vax_bbs.Phone.Calls.Keeps.Leaving.{hangup_session-Stays}
use retro_vax_bbs.Phone.Calls.Keeps.Reaping.{reap-Stays}
use retro_vax_bbs.Store.Schema.{User, Role, user, admin}

abbrev pub with_registry : Registry → Calls → Calls
with_registry reg s = record s { outside = record s.outside { reg = reg } }

-- The call of reg.Unregister.
unfoldable pub unregistered : Text → Calls → Option Calls
unregistered sid s = unregister sid s.reg >>= λ reg. some (with_registry reg s)

-- The deferred function: HangupSession, Unregister and ReapUnreachableRings.
unfoldable pub depart : Text → Text → Calls → Option Calls
unfolding unregistered
depart sid username s = do
  s1 ← hangup_session sid s
  s2 ← unregistered sid s1
  reap_unreachable_rings username s2

abbrev pub role_text : Role → Text
role_text user = codes "user"
role_text admin = codes "admin"

-- What a session starts with, once its account is found: its id, and the registry with its kick hook.
unfoldable pub arrive : Text → ℕ → User → Calls → Text × Calls
arrive username hook u s =
    let r = register username (role_text u.role) u.admin_visible (codes "LOBBY") s.reg in
    (r.0, with_registry (set_kick r.0 hook r.1) s)

-- A registry in step, with the session index of another.
Follows : Registry → Registry → Type 0
Follows base r = InStep r × ((t : Text) → find t r.session_index ≡ find t base.session_index)

send_to_session-Follows :
    (base : Registry) (sid : Text) (ev : PhoneEvent) (r : Registry)
    → Follows base r
    → Follows base (send_to_session sid ev r)
unfolding Follows send_to_session
send_to_session-Follows base sid ev r h = (
  send-InStep sid ev r h.0,
  λ t. elim (Option-cases (find sid r.session_index)) [
    | inl e ↦ rw (e, send_to_session) (h.1 t)
    | inr (p, e) ↦ rw (e, send_to_session) (h.1 t)
  ],
)

-- A result that is known, for what holds of it if there is one.
known {ℓ} : {A : Type ℓ} (P : A → Type 0) (o : Option A) (a : A) → o ≡ some a → Sure P o → P a
known P o a e h = subst (Sure P) e h

-- The end of a session panics nowhere, from a sound call table and a registry in step: the table stays
-- sound, the registry stays in step and has lost this session, and every other session is registered as
-- it was.
pub depart-InStep :
    (sid other username : Text) (s : Calls)
    → other ≢ sid
    → Inv s
    → InStep s.reg
    → (t : Calls) × (depart sid username s ≡ some t)
      × Inv t
      × InStep t.reg
      × (find sid t.reg.session_index ≡ none)
      × (find other t.reg.session_index ≡ find other s.reg.session_index)
unfolding depart unregistered Follows
depart-InStep sid other username s apart v step =
    let h = Stays-some (hangup_session sid s) (hangup_session-Stays sid s v) in
    let k1 =
      known (λ c. Follows s.reg c.reg) (hangup_session sid s) h.0 h.1
        (hangup_session-kept (Follows s.reg) (send_to_session-Follows s.reg) sid s
          (step, λ t. refl)) in
    let u = unregister_safe sid h.0.reg k1.0 in
    let s2 = with_registry u.0 h.0 in
    let p = Stays-some (reap_unreachable_rings username s2) (reap-Stays username s2 h.2) in
    let k2 =
      known (λ c. Follows u.0 c.reg) (reap_unreachable_rings username s2) p.0 p.1
        (reap_unreachable_rings-kept (Follows u.0) (send_to_session-Follows u.0) username s2
          (u.2, λ t. refl)) in
    (p.0, rw (h.1, u.1) p.1, p.2, k2.0, k2.1 sid ∙ u.4, k2.1 other ∙ u.5 other apart ∙ k1.1 other)
