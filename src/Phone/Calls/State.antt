-- ===== src/Phone/Calls/State.antt =====
-- internal/phone/call.go: the call table, its entries and its errors. A channel is known by a handle:
-- `chans` holds the channels that are open, each with its buffer, and `next_chan` the next handle.
-- Every method runs under c.mu, so it is one step on this state.
use retro_vax_bbs.Prelude.{
  ℕ, Text, text_discrete, codes, Bool, true, false, ◌&&◌, Option, none, some, List, [], ◌∷◌, ◌++◌,
  ite, if◌then◌else◌,
}
use retro_vax_bbs.Registry.State.{Registry}

pub data CallState : Type 0 where
  idle pending active : CallState

pub record CharEvent : Type 0 where
  pub r : ℕ
  pub sender : Text

pub record Chan : Type 0 where
  pub handle : ℕ
  pub buffer : List CharEvent

pub record Participant : Type 0 where
  pub username : Text
  pub session_id : Text
  pub incoming : ℕ

pub record Call : Type 0 where
  pub id : Text
  pub state : CallState
  pub caller : Text
  pub callee : Text
  pub participants : List Participant
  pub stop_ring : ℕ

-- An entry of pendingAdds: its key (addKey) and its value (pendingRing).
pub record PendingAdd : Type 0 where
  pub call_id : Text
  pub callee : Text
  pub stop : ℕ
  pub inviter : Text

-- What an operation touches outside the two tables.
pub record Outside : Type 0 where
  pub chans : List Chan
  pub reg : Registry

pub record Calls : Type 0 where
  pub calls : List Call
  pub pending_adds : List PendingAdd
  pub outside : Outside
  pub open outside use *
  pub next_chan : ℕ

pub data Error : Type 0 where
  self_call already_answered : Error
  not_connected busy being_rung not_found unexpected_state not_rejectable not_active : Text → Error

pub data Result {ℓ} (A : Type ℓ) : Type ℓ where
  ok : A → Result A
  err : Error → Result A

-- NewCalls
abbrev pub new_calls : Registry → Calls
new_calls reg = record {
  calls = [];
  pending_adds = [];
  outside = record { chans = []; reg = reg };
  next_chan = 0;
}

abbrev pub same : Text → Text → Bool
same a b = ite (text_discrete a b) true false

abbrev pub is_pending : CallState → Bool
is_pending pending = true
is_pending _ = false

-- c.calls[id]
unfoldable pub find_call : Text → List Call → Option Call
find_call id [] = none
find_call id (c ∷ cs) = ite (text_discrete c.id id) (some c) (find_call id cs)

-- delete(c.calls, id)
unfoldable pub delete_call : Text → List Call → List Call
delete_call id [] = []
delete_call id (c ∷ cs) = let rest = delete_call id cs in ite (text_discrete c.id id) cs (c ∷ rest)

-- A write through the pointer that the table holds for the call's id.
unfoldable pub set_call : Call → List Call → List Call
set_call d [] = []
set_call d (c ∷ cs) = let rest = set_call d cs in ite (text_discrete c.id d.id) (d ∷ cs) (c ∷ rest)

-- c.pendingAdds[addKey{callID, callee}]
unfoldable pub find_add : Text → Text → List PendingAdd → Option PendingAdd
find_add id callee [] = none
find_add id callee (a ∷ rest) =
    if same a.call_id id && same a.callee callee then some a else find_add id callee rest

-- delete(c.pendingAdds, key)
unfoldable pub delete_add : Text → Text → List PendingAdd → List PendingAdd
delete_add id callee [] = []
delete_add id callee (a ∷ rest) =
    let kept = delete_add id callee rest in
    if same a.call_id id && same a.callee callee then rest else a ∷ kept

-- The texts of the errors.
unfoldable pub error_text : Error → Text
error_text self_call = codes "you cannot phone yourself"
error_text already_answered = codes "call was already answered"
error_text (not_connected u) = u ++ codes " is not connected"
error_text (busy u) = u ++ codes " is already in a call"
error_text (being_rung u) = u ++ codes " is already being called"
error_text (not_found id) = codes "call " ++ (id ++ codes " not found")
error_text (unexpected_state id) = codes "call " ++ (id ++ codes " is in unexpected state")
error_text (not_rejectable id) = codes "call " ++ (id ++ codes " is not in a rejectable state")
error_text (not_active id) = codes "call " ++ (id ++ codes " is not active")

-- ErrorMessage
unfoldable pub error_message : Error → Text → Text
unfolding error_text
error_message self_call target = codes "%PHONE-E-SELF, You cannot phone yourself."
error_message (busy u) target =
    codes "%PHONE-E-BUSY, " ++ (target ++ codes " is already in a call.")
error_message (being_rung u) target =
    codes "%PHONE-E-BUSY, " ++ (target ++ codes " is already being called.")
error_message (not_connected u) target =
    codes "%PHONE-E-NOLOGIN, " ++ (target ++ codes " is not connected.")
error_message e target = codes "%PHONE-E-NOLOGIN, " ++ error_text e
