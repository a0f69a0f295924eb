-- ===== src/Tests/Registrations.antt =====
-- The theorems on internal/registration/app.go at concrete inputs.
use retro_vax_bbs.Prelude.{◌≡◌, refl, codes, false, leb, ◌==◌, ◌&&◌, [], ◌∷◌, some, All, inr}
use retro_vax_bbs.Registry.State.{init}
use retro_vax_bbs.Registration.Model.{Step, Model, Env, System, hashed, new_model}
use retro_vax_bbs.Registration.Submit.{Key, update}
use retro_vax_bbs.Registration.Screen.{view, view-masked}
use retro_vax_bbs.Registration.Checks.{Filled, opened, keyed, at_time}
use retro_vax_bbs.Registration.Names.{Known, Filled-Known}

-- Letters are those of ASCII in lower case, and a hash is the password itself.
abbrev small_env : Env
small_env = record {
  is_letter = λ c. leb 97 c && leb c 122;
  is_digit = λ c. leb 48 c && leb c 57;
  is_space = λ c. c == 32;
  decode = λ t. t;
  lower = λ t. t;
  trim_space = λ t. t;
  hash = hashed;
  describe = λ e. [];
  now = 9;
  enforced = false;
}

-- One invite code, with two uses.
abbrev invited_system : System
invited_system = record {
  db = record {
    users = [];
    invites =
        record {
          code = codes "CODE";
          created_by = 1;
          uses_remaining = 2;
          expires_at = some 4000000000;
        }
        ∷ [];
  };
  reg = init;
}

abbrev confirming : Model
confirming = record (new_model (codes "invite-only") 0) {
  step = Step.confirm;
  username = codes "carol";
  invite = codes "CODE";
  password = codes "secret77";
  input = codes "secret77";
}

-- A registration whose user typed a name.
abbrev named_model : Model
named_model =
    (update (at_time 9 small_env) (Key.runes (codes "carol")) (new_model (codes "invite-only") 0)
      invited_system).0

named_model-Filled : Filled small_env (codes "invite-only") 0 named_model
named_model-Filled = keyed 9 (Key.runes (codes "carol")) invited_system opened

Filled-Known_example :
    All
      (Known (at_time 10 small_env) invited_system.db.users)
      (update (at_time 10 small_env) Key.enter named_model invited_system).1.db.users
Filled-Known_example =
    Filled-Known small_env (codes "invite-only") 0 named_model 10 Key.enter invited_system
      named_model-Filled

view-masked_example :
    view (record confirming { input = codes "other777"; password = codes "forgotten" })
    ≡ view confirming
unfolding new_model
view-masked_example = view-masked confirming (codes "other777") (codes "forgotten") (inr refl) refl
