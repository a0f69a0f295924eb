-- ===== src/Phone/Screen/Receiving.antt =====
-- internal/phone/app.go: what characters, timers and phone events leave of a coherent screen over a
-- sound call table.
use retro_vax_bbs.Prelude.{
  ℕ, ◌≡◌, refl, ap, ◌∙◌, Text, codes, not, Option, List, [], ◌∷◌, ◌++◌, ◌≢◌, Bool-cases, inl, inr,
  any, ◌==◌, subst,
}
use retro_vax_bbs.Registry.Event.{EventType, PhoneEvent}
use retro_vax_bbs.Registry.State.{is_empty}
use retro_vax_bbs.Phone.Viewport.{ViewportText}
use retro_vax_bbs.Phone.Calls.State.{CallState, idle, pending, active, Calls, same}
use retro_vax_bbs.Phone.Calls.Leaving.{hangup_call}
use retro_vax_bbs.Phone.Calls.Invariant.{Inv}
use retro_vax_bbs.Phone.Calls.Keeps.Leaving.{hangup_call-Stays}
use retro_vax_bbs.Phone.Screen.Model.{
  Model, notify, set_notification, forget_ring, go_idle, show_phone, with_app, change_first,
}
use retro_vax_bbs.Phone.Screen.Events
use retro_vax_bbs.Phone.Screen.Events.{
  show_rune, stars, drop_target, admit_viewport, answered, on_answer, without_user, departed,
  cancelled, on_hangup, ring_over, on_reject, on_gone, on_answer_elsewhere, on_ringing, on_ring,
  call_waiting, handle_phone_event, names_without,
}
use retro_vax_bbs.Phone.Screen.Coherence.{
  Coherent, Mode, Lands, Lands-if, Lands-then, show_rune-username, names-change_first, names-snoc,
  names-viewports_without, names_without-own,
}

abbrev pub Good : Model → Calls → Type 0
Good m s = Inv s × Coherent m

pub go_idle-Coherent : (m : Model) → Coherent (go_idle m)
unfolding go_idle
go_idle-Coherent m = record { own_first = refl; mode = (refl, refl, refl, refl) }

-- The helpers that touch neither the viewports nor what the mode fixes.
pub notify-Good :
    (text : Text) (seconds : ℕ) (m : Model) (s : Calls)
    → Inv s
    → Coherent m
    → Lands Good (notify text seconds m s)
unfolding notify set_notification
notify-Good text seconds m s v c = (v, record { own_first = c.own_first; mode = c.mode })

pub forget_ring-Coherent : (m : Model) → Coherent m → Coherent (forget_ring m)
unfolding forget_ring
forget_ring-Coherent m c = record { own_first = c.own_first; mode = c.mode }

drop_target-Coherent : (callee : Text) (m : Model) → Coherent m → Coherent (drop_target callee m)
unfolding drop_target
drop_target-Coherent callee m c = record { own_first = c.own_first; mode = c.mode }

pub change_first-Coherent :
    (name : Text) (f : ViewportText → ViewportText) (m : Model)
    → ((v : ViewportText) → (f v).username ≡ v.username)
    → Coherent m
    → Coherent (record m { viewports = change_first name f m.viewports })
change_first-Coherent name f m h c = record {
  own_first = names-change_first name f m.viewports h ∙ c.own_first;
  mode = c.mode;
}

pub char_arrived-Good :
    (r : ℕ) (sender : Text) (m : Model) (s : Calls)
    → Good m s
    → Lands Good (Events.char_arrived r sender m s)
unfolding Events.char_arrived
char_arrived-Good r sender m s g =
    Lands-if Good (r == 7) _ _ g
      (g.0, change_first-Coherent sender (show_rune m.width r) m (show_rune-username m.width r) g.1)

pub clear_msg-Good :
    (gen : ℕ) (m : Model) (s : Calls) → Good m s → Lands Good (Events.clear_msg gen m s)
unfolding Events.clear_msg
clear_msg-Good gen m s g =
    Lands-if Good (gen == m.msg_generation) _ _
      (g.0, record { own_first = g.1.own_first; mode = g.1.mode }) g

-- In a call, the mode says nothing of who the others are.
widened :
    (st : CallState) (id : Text) (us vs : List Text) (chars : Option ℕ) (status : Text)
    → st ≡ active
    → Mode st id us chars status
    → Mode st id vs chars status
widened active id us vs chars status e h = h
widened idle id us vs chars status e h = absurd cc
widened pending id us vs chars status e h = absurd cc

pub show_phone-Inv : (m : Model) (s : Calls) → Inv s → Inv (show_phone m s)
unfolding show_phone with_app
show_phone-Inv m s v = v

admitted :
    (user : Text) (m : Model) → m.state ≡ active → Coherent m → Coherent (admit_viewport user m)
unfolding admit_viewport
admitted user m e c =
    elim (Bool-cases (any (λ (v : ViewportText). same v.username user) m.viewports)) [
      | inl f ↦ rw f c
      | inr f ↦ rw f (record {
        own_first = names-snoc m.viewports user ∙ ap (λ ns. ns ++ user ∷ []) c.own_first;
        mode =
            widened m.state m.call_id m.calls_with (m.calls_with ++ user ∷ []) m.my_chars m.status e
              c.mode;
      })
    ]

-- The mode's facts, once the state is known.
pub at_state :
    (st : CallState) (m : Model)
    → m.state ≡ st
    → Coherent m
    → Mode st m.call_id m.calls_with m.my_chars m.status
at_state st m e c = subst (λ x. Mode x m.call_id m.calls_with m.my_chars m.status) e c.mode

answered-Coherent :
    (st : CallState) (callee : Text) (m : Model)
    → m.state ≡ st
    → Coherent m
    → Coherent (answered st callee m)
unfolding answered
answered-Coherent idle callee m e c = c
answered-Coherent pending callee m e c =
    let h = at_state pending m e c in record { own_first = c.own_first; mode = (refl, h.3) }
answered-Coherent active callee m e c =
    drop_target-Coherent callee (admit_viewport callee m) (admitted callee m e c)

on_answer-Good :
    (ev : PhoneEvent) (m : Model) (s : Calls) → Good m s → Lands Good (on_answer ev m s)
unfolding on_answer
on_answer-Good ev m s g = Lands-if Good (not (same ev.call_id m.call_id)) _ _ g (
    notify-Good _ 10 (answered m.state ev.callee m) s g.0
      (answered-Coherent m.state ev.callee m refl g.1))

without_user-Coherent :
    (user : Text) (m : Model)
    → m.state ≡ active
    → m.username ≢ user
    → Coherent m
    → Coherent (without_user user m)
unfolding without_user
without_user-Coherent user m e differ c = record {
  own_first =
      names-viewports_without user m.viewports
      ∙ ap (names_without user) c.own_first
      ∙ names_without-own user m.username m.calls_with differ;
  mode =
      widened m.state m.call_id m.calls_with (names_without user m.calls_with) m.my_chars m.status e
        c.mode;
}

departed-Good :
    (user : Text) (m : Model) (s : Calls)
    → m.state ≡ active
    → m.username ≢ user
    → Good m s
    → Lands Good (departed user m s)
unfolding departed
departed-Good user m s e differ g =
    let left = without_user user m in
    let text = stars (user ++ codes " has left the call") in
    Lands-if Good (is_empty left.calls_with) _ _
      (Lands-then Good (hangup_call left.call_id left.session_id s) _
        (hangup_call-Stays left.call_id left.session_id s g.0)
        (λ s' v.
          notify-Good text 10 (go_idle left) (show_phone left s') (show_phone-Inv left s' v)
            (go_idle-Coherent left)))
      (notify-Good text 10 left s g.0 (without_user-Coherent user m e differ g.1))

cancelled-Good :
    (ev : PhoneEvent) (m : Model) (s : Calls) → Good m s → Lands Good (cancelled ev m s)
unfolding cancelled
cancelled-Good ev m s g = notify-Good _ 10 (forget_ring m) s g.0 (forget_ring-Coherent m g.1)

on_hangup-Good :
    (st : CallState) (ev : PhoneEvent) (m : Model) (s : Calls)
    → m.state ≡ st
    → m.username ≢ ev.caller
    → Good m s
    → Lands Good (on_hangup st ev m s)
unfolding on_hangup
on_hangup-Good idle ev m s e differ g =
    Lands-if Good (same ev.call_id m.pending_incoming_call_id) _ _ (cancelled-Good ev m s g) g
on_hangup-Good pending ev m s e differ g =
    Lands-if Good (not (same ev.call_id m.call_id)) _ _ g (cancelled-Good ev m s g)
on_hangup-Good active ev m s e differ g = Lands-if Good (not (same ev.call_id m.call_id)) _ _ g (
    Lands-if Good (not (is_empty ev.callee)) _ _
      (g.0, record { own_first = g.1.own_first; mode = g.1.mode })
      (departed-Good ev.caller m s e differ g))

ring_over-Good :
    (st : CallState) (callee in_call out_of_call : Text) (m : Model) (s : Calls)
    → Good m s
    → Lands Good (ring_over st callee in_call out_of_call m s)
unfolding ring_over
ring_over-Good active callee a b m s g =
    notify-Good a 10 (drop_target callee m) s g.0 (drop_target-Coherent callee m g.1)
ring_over-Good idle callee a b m s g =
    notify-Good b 10 (go_idle m) (show_phone m s) (show_phone-Inv m s g.0) (go_idle-Coherent m)
ring_over-Good pending callee a b m s g =
    notify-Good b 10 (go_idle m) (show_phone m s) (show_phone-Inv m s g.0) (go_idle-Coherent m)

on_reject-Good :
    (ev : PhoneEvent) (m : Model) (s : Calls) → Good m s → Lands Good (on_reject ev m s)
unfolding on_reject
on_reject-Good ev m s g =
    Lands-if Good (not (same ev.call_id m.call_id)) _ _ g
      (ring_over-Good m.state ev.callee _ _ m s g)

on_gone-Good :
    (reason : Text) (ev : PhoneEvent) (m : Model) (s : Calls)
    → Good m s
    → Lands Good (on_gone reason ev m s)
unfolding on_gone
on_gone-Good reason ev m s g =
    Lands-if Good (not (same ev.call_id m.call_id)) _ _ g
      (ring_over-Good m.state ev.callee _ _ m s g)

on_ring-Good :
    (st : CallState) (clock : Text) (ev : PhoneEvent) (m : Model) (s : Calls)
    → Good m s
    → Lands Good (on_ring st clock ev m s)
unfolding on_ring call_waiting set_notification
on_ring-Good idle clock ev m s g = (g.0, record { own_first = g.1.own_first; mode = g.1.mode })
on_ring-Good pending clock ev m s g = (g.0, record { own_first = g.1.own_first; mode = g.1.mode })
on_ring-Good active clock ev m s g = (g.0, record { own_first = g.1.own_first; mode = g.1.mode })

pub handle_phone_event-Good :
    (type : EventType) (clock : Text) (ev : PhoneEvent) (m : Model) (s : Calls)
    → (type ≡ EventType.hangup → m.username ≢ ev.caller)
    → Good m s
    → Lands Good (handle_phone_event type clock ev m s)
unfolding handle_phone_event on_answer_elsewhere on_ringing
handle_phone_event-Good EventType.answer clock ev m s h g = on_answer-Good ev m s g
handle_phone_event-Good EventType.hangup clock ev m s h g =
    on_hangup-Good m.state ev m s refl (h refl) g
handle_phone_event-Good EventType.reject clock ev m s h g = on_reject-Good ev m s g
handle_phone_event-Good EventType.callee_gone clock ev m s h g = on_gone-Good _ ev m s g
handle_phone_event-Good EventType.callee_unavailable clock ev m s h g = on_gone-Good _ ev m s g
handle_phone_event-Good EventType.answer_elsewhere clock ev m s h g =
    Lands-if Good (same ev.call_id m.pending_incoming_call_id) _ _
      (notify-Good _ 10 (forget_ring m) s g.0 (forget_ring-Coherent m g.1)) g
handle_phone_event-Good EventType.ringing clock ev m s h g =
    Lands-if Good (not (same ev.call_id m.call_id)) _ _ g (notify-Good _ 10 m s g.0 g.1)
handle_phone_event-Good EventType.ring clock ev m s h g = on_ring-Good m.state clock ev m s g
handle_phone_event-Good EventType.admin_notify clock ev m s h g = g
