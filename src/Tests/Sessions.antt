-- ===== src/Tests/Sessions.antt =====
-- The theorems on internal/registry at concrete inputs.
use retro_vax_bbs.Prelude.{
  ℕ, ◌≡◌, ◌≢◌, ap, Text, codes, true, false, none, some, List, [], ◌∷◌, arith, ◌⊎◌,
}
use retro_vax_bbs.Dict.{find}
use retro_vax_bbs.Registry.Event.{ring, PhoneEvent}
use retro_vax_bbs.Registry.State.{Registry, init, register, unregister, send_to_session}
use retro_vax_bbs.Registry.Lockstep.{InStep}
use retro_vax_bbs.Registry.Arrivals.{register_fresh, register-InStep}
use retro_vax_bbs.Registry.Departures.{unregister-InStep}
use retro_vax_bbs.Registry.Delivery.{send_lem, Delivers}
use retro_vax_bbs.Registry.Histories.{
  Call, registers, unregisters, sends, notifies, run, run-InStep, init-InStep,
}

abbrev phone_ring : PhoneEvent
phone_ring = record {
  type = ring;
  call_id = codes "1";
  caller = codes "ALICE";
  callee = codes "BOB";
}

abbrev evening : List Call
evening =
    registers (codes "ALICE") (codes "admin") true (codes "LOBBY")
    ∷ registers (codes "ALICE") (codes "admin") true (codes "LOBBY")
    ∷ sends (codes "2") phone_ring
    ∷ unregisters (codes "1")
    ∷ notifies phone_ring
    ∷ []

run-InStep_example : (r : Registry) × (run evening init ≡ some r) × InStep r
unfolding init
run-InStep_example = run-InStep evening init init-InStep (omega arith)

abbrev one_session : Registry
one_session = (register (codes "ALICE") (codes "user") false (codes "LOBBY") init).1

one_session-InStep : InStep one_session
unfolding init
one_session-InStep =
    register-InStep (codes "ALICE") (codes "user") false (codes "LOBBY") init init-InStep
      (omega arith)

register_fresh_example :
    find (register (codes "BOB") (codes "user") false (codes "LOBBY") init).0 init.session_index
    ≡ none
unfolding init
register_fresh_example =
    register_fresh (codes "BOB") (codes "user") false (codes "LOBBY") init init-InStep (omega arith)

abbrev first_rune : Text → ℕ
first_rune [] = 0
first_rune (r ∷ rs) = r

another : codes "2" ≢ codes "1"
another e = omega (arith, ap first_rune e)

unregister-InStep_example :
    (r : Registry) × (unregister (codes "1") one_session ≡ some r)
    × InStep r
    × (find (codes "1") r.session_index ≡ none)
    × (find (codes "2") r.session_index ≡ find (codes "2") one_session.session_index)
unregister-InStep_example =
    unregister-InStep (codes "1") (codes "2") one_session another one_session-InStep

send_lem_example :
    ((find (codes "1") one_session.session_index ≡ none)
      × (send_to_session (codes "1") phone_ring one_session ≡ one_session))
    ⊎ ((p : ℕ) × (find (codes "1") one_session.session_index ≡ some p)
        × Delivers phone_ring
            (one_session.heap p)
            ((send_to_session (codes "1") phone_ring one_session).heap p)
        × ((q : ℕ)
            → (q ≡ p)
              ⊎ ((send_to_session (codes "1") phone_ring one_session).heap q ≡ one_session.heap q)))
send_lem_example = send_lem (codes "1") phone_ring one_session
