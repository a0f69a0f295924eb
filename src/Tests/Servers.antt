-- ===== src/Tests/Servers.antt =====
-- The theorems on cmd/server/main.go at concrete inputs.
use retro_vax_bbs.Prelude.{
  ℕ, ◌≡◌, ◌≢◌, refl, ap, Text, codes, text_discrete, false, true, none, some, [], ◌∷◌, arith, inl,
  inr, if◌then◌else◌,
}
use retro_vax_bbs.Dict.{find}
use retro_vax_bbs.Registry.State.{Registry, init, register}
use retro_vax_bbs.Registry.Lockstep.{InStep}
use retro_vax_bbs.Registry.Arrivals.{register-InStep}
use retro_vax_bbs.Registry.Histories.{init-InStep}
use retro_vax_bbs.Phone.Calls.State.{Calls, find_call, new_calls, same}
use retro_vax_bbs.Phone.Calls.Admission.{dial}
use retro_vax_bbs.Phone.Calls.Invariant.{Inv}
use retro_vax_bbs.Phone.Calls.Keeps.Dialing.{dial-Inv}
use retro_vax_bbs.Phone.Calls.Histories.{new_calls-Inv}
use retro_vax_bbs.Store.Schema.{Store, user, active, count_rows, find_row, named}
use retro_vax_bbs.Store.Accounts.{new_row, get_user_by_username}
use retro_vax_bbs.Registration.Model.{hashed}
use retro_vax_bbs.Server.Login.{Verdict, public_password_handler, admin_password_handler}
use retro_vax_bbs.Server.Entry.{Single, decides, public_password_handler-decides}
use retro_vax_bbs.Server.Bootstrap.{bootstrap_admin_account, get_user_by_username_ci}
use retro_vax_bbs.Server.Recovery.{Boots, bootstrap_admin_account-Boots}
use retro_vax_bbs.Server.Sessions.{depart, depart-InStep, with_registry}

-- A hash is the password itself.
abbrev plain_verify : Text → Text → Verdict
plain_verify password hash = if same password hash then Verdict.matches else Verdict.mismatch

abbrev bob_only : Store
bob_only = record {
  users = new_row 0 1 (codes "bob") none (codes "secret77") active user ∷ [];
  invites = [];
}

public_password_handler-decides_example :
    ((public_password_handler
        (λ c. c)
        plain_verify
        (codes "closed")
        5
        (codes "bob")
        (codes "secret77")
        bob_only).1
      ≡ decides false plain_verify 5
          (codes "secret77")
          (get_user_by_username (codes "bob") bob_only))
    × ((admin_password_handler plain_verify 5 (codes "bob") (codes "secret77") bob_only).1
        ≡ decides true plain_verify 5
            (codes "secret77")
            (get_user_by_username (codes "bob") bob_only))
unfolding Single get_user_by_username find_row named new_row count_rows text_discrete
public_password_handler-decides_example =
    public_password_handler-decides (λ c. c) plain_verify (codes "closed") 5 (codes "bob")
      (codes "secret77") bob_only refl refl

abbrev empty_store : Store
empty_store = record { users = []; invites = [] }

bootstrap_admin_account-Boots_example :
    Boots 5
      (bootstrap_admin_account (λ c. c) hashed 5 (codes "sysop") (codes "secret77") empty_store)
unfolding get_user_by_username get_user_by_username_ci find_row text_discrete
bootstrap_admin_account-Boots_example =
    bootstrap_admin_account-Boots (λ c. c) hashed 5 (codes "sysop") (codes "secret77")
      (codes "secret77") empty_store refl refl refl refl (inr (inl (refl, refl)))

abbrev alice_online : Registry
alice_online = (register (codes "ALICE") (codes "user") false (codes "LOBBY") init).1

abbrev both_online : Registry
both_online = (register (codes "BOB") (codes "user") false (codes "LOBBY") alice_online).1

both_online-InStep : InStep both_online
unfolding init register
both_online-InStep =
    register-InStep (codes "BOB") (codes "user") false (codes "LOBBY") alice_online
      (register-InStep (codes "ALICE") (codes "user") false (codes "LOBBY") init init-InStep
        (omega arith))
      (omega arith)

-- ALICE rings BOB.
abbrev alice_rings : Calls
alice_rings =
    with_registry both_online
      (dial (λ c. c) (codes "1") (codes "ALICE") (codes "BOB") 7 (new_calls both_online)).0

alice_rings-Inv : Inv alice_rings
unfolding find_call
alice_rings-Inv =
    dial-Inv (λ c. c) (codes "1") (codes "ALICE") (codes "BOB") 7 (new_calls both_online)
      (new_calls-Inv both_online) refl

abbrev first_code : Text → ℕ
first_code [] = 0
first_code (r ∷ rs) = r

bob_apart : codes "2" ≢ codes "1"
bob_apart e = omega (arith, ap first_code e)

depart-InStep_example :
    (t : Calls) × (depart (codes "1") (codes "ALICE") alice_rings ≡ some t)
    × Inv t
    × InStep t.reg
    × (find (codes "1") t.reg.session_index ≡ none)
    × (find (codes "2") t.reg.session_index ≡ find (codes "2") alice_rings.reg.session_index)
depart-InStep_example =
    depart-InStep (codes "1") (codes "2") (codes "ALICE") alice_rings bob_apart alice_rings-Inv
      both_online-InStep
