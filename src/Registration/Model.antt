-- ===== src/Registration/Model.antt =====
-- internal/registration/app.go: the model, its steps, and the checks of names and passwords. A text is
-- the list of its bytes.
use retro_vax_bbs.Prelude.{
  ℕ, Text, codes, Bool, false, not, ◌||◌, Option, none, some, List, [], ◌∷◌, any, length, ltb, ◌==◌,
  if◌then◌else◌,
}
use retro_vax_bbs.Registry.State.{Registry}
use retro_vax_bbs.Phone.Calls.State.{same}
use retro_vax_bbs.Store.Schema.{Store, Error}

pub data Step : Type 0 where
  username email email_confirm invite_code password confirm done : Step

pub record Model : Type 0 where
  pub mode : Text
  pub pending_expiry : ℕ
  pub step : Step
  pub username : Text
  pub email : Text
  pub invite : Text
  pub password : Text
  pub input : Text
  pub err_msg : Text
  pub result : Text
  pub done : Bool

-- What hashFn returns.
pub data Hashed : Type 0 where
  hashed : Text → Hashed
  hash_failed : Text → Hashed

-- What the program asks of the standard library, the hash function, the clock and the connection:
-- `decode` gives the runes of a string, `describe` the text of an error of the store.
pub record Env : Type 0 where
  pub is_letter : ℕ → Bool
  pub is_digit : ℕ → Bool
  pub is_space : ℕ → Bool
  pub decode : Text → List ℕ
  pub lower : Text → Text
  pub trim_space : Text → Text
  pub hash : Text → Hashed
  pub describe : Error → Text
  pub now : ℕ
  pub enforced : Bool

-- What a registration shares with the rest of the program.
pub record System : Type 0 where
  pub db : Store
  pub reg : Registry

-- New
unfoldable pub new_model : Text → ℕ → Model
new_model mode pending_expiry = record {
  mode = mode;
  pending_expiry = pending_expiry;
  step = Step.username;
  username = [];
  email = [];
  invite = [];
  password = [];
  input = [];
  err_msg = [];
  result = [];
  done = false;
}

abbrev pub is_invite_only : Text → Bool
is_invite_only mode = same mode (codes "invite-only")

abbrev pub reserved_usernames : List Text
reserved_usernames =
    codes "new"
    ∷ codes "admin"
    ∷ codes "root"
    ∷ codes "system"
    ∷ codes "sysop"
    ∷ codes "operator"
    ∷ codes "anonymous"
    ∷ []

-- The characters that a name may have.
unfoldable pub allowed : Env → ℕ → Bool
allowed env c = env.is_letter c || (env.is_digit c || (c == 95))

-- validateUsername: the text of its error.
unfoldable pub validate_username : Env → Text → Option Text
unfolding allowed
validate_username env s =
    if ltb (length s) 3
    then some (codes "Username must be at least 3 characters.")
    else if ltb 20 (length s)
    then some (codes "Username must be 20 characters or fewer.")
    else if any (λ c. not (allowed env c)) (env.decode s)
    then some (codes "Only letters, numbers, and underscores are allowed.")
    else if any (same (env.lower s)) reserved_usernames
    then some (codes "That username is reserved. Please choose another.")
    else none

-- validatePassword
unfoldable pub validate_password : Text → Option Text
validate_password s =
    if ltb (length s) 8
    then some (codes "Password must be at least 8 characters.")
    else if ltb 72 (length s)
    then some (codes "Password must be 72 characters or fewer.")
    else none
