-- ===== src/Tests/Passwords.antt =====
-- The theorem on internal/setpassword/setpassword.go at a concrete input.
use retro_vax_bbs.Prelude.{
  ℕ, map, ◌≡◌, refl, List, codes, Bool, true, false, ◌||◌, none, [], ◌∷◌, if◌then◌else◌,
}
use retro_vax_bbs.Phone.Calls.State.{same}
use retro_vax_bbs.Store.Schema.{Store, user, active}
use retro_vax_bbs.Store.Accounts.{new_row, set_password}
use retro_vax_bbs.Registration.Model.{hashed, validate_password}
use retro_vax_bbs.Server.Login.{Verdict}
use retro_vax_bbs.Passwords.Dialogue.{Model, Env, Key, new_model, update}
use retro_vax_bbs.Passwords.Proofs.{proves}
use retro_vax_bbs.Phone.Screen.Model.{utf8}
use retro_vax_bbs.Passwords.Completion.{type_all, typed_twice-ends, line_keys, all_runes}
use retro_vax_bbs.Passwords.Changes.{Changes, Reached, opened, keyed, Reached-Changes}

-- A hash is the password itself.
abbrev plain : Env
plain = record {
  verify = λ password hash. if same password hash then Verdict.matches else Verdict.mismatch;
  hash = λ password. hashed password;
  describe = λ e. codes "refused";
  now = 5;
}

abbrev bob : Store
bob = record {
  users = new_row 0 1 (codes "bob") none (codes "secret77") active user ∷ [];
  invites = [];
}

abbrev start : Model
start = new_model (codes "bob") (codes "bob") true true

abbrev typed_current : Model
typed_current = (update plain (Key.runes (codes "secret77")) start bob).0

abbrev at_new : Model
at_new = (update plain Key.enter typed_current bob).0

abbrev typed_new : Model
typed_new = (update plain (Key.runes (codes "password")) at_new bob).0

abbrev at_confirm : Model
at_confirm = (update plain Key.enter typed_new bob).0

abbrev typed_again : Model
typed_again = (update plain (Key.runes (codes "password")) at_confirm bob).0

abbrev proven : Bool
proven =
    ((((false || proves plain (Key.runes (codes "secret77")) start bob)
          || proves plain Key.enter typed_current bob)
        || proves plain (Key.runes (codes "password")) at_new bob)
      || proves plain Key.enter typed_new bob)
    || proves plain (Key.runes (codes "password")) at_confirm bob

typed_again-Reached : Reached (codes "bob") (codes "bob") true typed_again proven
typed_again-Reached = keyed plain (Key.runes (codes "password")) bob (
    keyed plain Key.enter bob (
      keyed plain (Key.runes (codes "password")) bob
        (keyed plain Key.enter bob (keyed plain (Key.runes (codes "secret77")) bob opened))))

Reached-Changes_example :
    Changes plain proven typed_again bob (update plain Key.enter typed_again bob)
Reached-Changes_example =
    Reached-Changes (codes "bob") (codes "bob") true typed_again proven plain Key.enter bob
      typed_again-Reached

-- "pass word" with a key for each rune, then pasted in two pieces with the blank between them.
abbrev one_by_one : List (List ℕ)
one_by_one = map (λ r. r ∷ []) (codes "pass word")

abbrev pasted : List (List ℕ)
pasted = codes "pass" ∷ codes " " ∷ codes "word" ∷ []

abbrev after_reset : Model × Store
after_reset =
    type_all plain (line_keys one_by_one (line_keys pasted []))
      (new_model (codes "root") (codes "bob") false true, bob)

typed_twice-ends_example :
    (after_reset.0.is_done ≡ true)
    × (after_reset.1 ≡ (set_password (codes "bob") (codes "pass word") bob).0)
unfolding validate_password utf8 all_runes
typed_twice-ends_example =
    typed_twice-ends plain (codes "root") (codes "bob") true bob one_by_one pasted
      (codes "pass word") refl refl refl
