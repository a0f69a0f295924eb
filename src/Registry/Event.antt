-- ===== src/Registry/Event.antt =====
-- internal/registry/registry.go: the events that PHONE and the registration flow send to sessions.
use Prim.Native.String.{String}
use retro_vax_bbs.Prelude.{Text}

pub data EventType : Type 0 where
  ring hangup reject answer ringing admin_notify answer_elsewhere callee_gone callee_unavailable :
      EventType

-- The default case of the switch cannot be reached by a declared constant.
unfoldable pub type_name : EventType → String
type_name ring = "EventRing"
type_name hangup = "EventHangup"
type_name reject = "EventReject"
type_name answer = "EventAnswer"
type_name ringing = "EventRinging"
type_name admin_notify = "EventAdminNotify"
type_name answer_elsewhere = "EventAnswerElsewhere"
type_name callee_gone = "EventCalleeGone"
type_name callee_unavailable = "EventCalleeUnavailable"

pub record PhoneEvent : Type 0 where
  pub type : EventType
  pub call_id : Text
  pub caller : Text
  pub callee : Text
