-- ===== src/Phone/Screen/Filters.antt =====
-- internal/phone/app.go: the filters by call id in handlePhoneEvent.
use retro_vax_bbs.Prelude.{◌≡◌, ◌≢◌, refl, Text, true, false, if_neg, text_discrete}
use retro_vax_bbs.Registry.Event.{EventType, PhoneEvent}
use retro_vax_bbs.Phone.Calls.State.{CallState, idle, pending, active, Calls, same}
use retro_vax_bbs.Phone.Screen.Model.{Model, quiet}
use retro_vax_bbs.Phone.Screen.Events.{
  on_answer, on_hangup, on_reject, on_gone, on_answer_elsewhere, on_ringing, handle_phone_event,
}

differs : (a b : Text) → a ≢ b → same a b ≡ false
differs a b n = if_neg (text_discrete a b) n true false

on_hangup-stray :
    (st : CallState) (ev : PhoneEvent) (m : Model) (s : Calls)
    → same ev.call_id m.call_id ≡ false
    → same ev.call_id m.pending_incoming_call_id ≡ false
    → on_hangup st ev m s ≡ quiet m s
unfolding on_hangup
on_hangup-stray idle ev m s a b = rw b refl
on_hangup-stray pending ev m s a b = rw a refl
on_hangup-stray active ev m s a b = rw a refl

-- An event, other than a ring, of neither the screen's call nor the call that rings there changes
-- nothing: neither the screen nor the call table, and nothing is set going.
pub handle_phone_event-stray :
    (type : EventType) (clock : Text) (ev : PhoneEvent) (m : Model) (s : Calls)
    → type ≢ EventType.ring
    → ev.call_id ≢ m.call_id
    → ev.call_id ≢ m.pending_incoming_call_id
    → handle_phone_event type clock ev m s ≡ quiet m s
unfolding handle_phone_event on_answer on_reject on_gone on_answer_elsewhere on_ringing
handle_phone_event-stray EventType.answer clock ev m s no_ring a b =
    rw (differs ev.call_id m.call_id a) refl
handle_phone_event-stray EventType.hangup clock ev m s no_ring a b =
    on_hangup-stray m.state ev m s (differs ev.call_id m.call_id a)
      (differs ev.call_id m.pending_incoming_call_id b)
handle_phone_event-stray EventType.reject clock ev m s no_ring a b =
    rw (differs ev.call_id m.call_id a) refl
handle_phone_event-stray EventType.callee_gone clock ev m s no_ring a b =
    rw (differs ev.call_id m.call_id a) refl
handle_phone_event-stray EventType.callee_unavailable clock ev m s no_ring a b =
    rw (differs ev.call_id m.call_id a) refl
handle_phone_event-stray EventType.answer_elsewhere clock ev m s no_ring a b =
    rw (differs ev.call_id m.pending_incoming_call_id b) refl
handle_phone_event-stray EventType.ringing clock ev m s no_ring a b =
    rw (differs ev.call_id m.call_id a) refl
handle_phone_event-stray EventType.ring clock ev m s no_ring a b = absurd (no_ring refl)
handle_phone_event-stray EventType.admin_notify clock ev m s no_ring a b = refl
