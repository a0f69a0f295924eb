-- ===== src/Phone/Screen/Commanding.antt =====
-- internal/phone/app.go: what the commands and keys leave of a coherent screen over a sound call table.
use retro_vax_bbs.Prelude.{
  ◌≡◌, refl, ap, ◌∙◌, Text, codes, not, Option, none, some, [], ◌∷◌, ◌++◌, ◌>>=◌,
}
use retro_vax_bbs.Registry.State.{is_empty}
use retro_vax_bbs.Phone.Calls.State.{
  CallState, idle, pending, active, Call, Calls, Participant, Error, self_call, already_answered,
  not_connected, busy, being_rung, not_found, unexpected_state, not_rejectable, not_active, Result,
  ok, err, find_call, error_text,
}
use retro_vax_bbs.Phone.Calls.Admission.{call_id, dial}
use retro_vax_bbs.Phone.Calls.Answering.{answer_call, reject_call, Reply}
use retro_vax_bbs.Phone.Calls.Inviting
use retro_vax_bbs.Phone.Calls.Inviting.{add, cancel_add, broadcast_char}
use retro_vax_bbs.Phone.Calls.Invariant.{Inv, Stays, Keeps}
use retro_vax_bbs.Phone.Calls.Keeps.Dialing.{dial-Inv}
use retro_vax_bbs.Phone.Calls.Keeps.Answering.{answer_call-Keeps}
use retro_vax_bbs.Phone.Calls.Keeps.Rejecting.{reject_call-Keeps}
use retro_vax_bbs.Phone.Calls.Keeps.Inviting.{add-Inv, cancel_add-Stays}
use retro_vax_bbs.Phone.Calls.Keeps.Leaving.{hangup_call-Stays}
use retro_vax_bbs.Phone.Screen.Model.{Model, forget_ring, with_app}
use retro_vax_bbs.Phone.Screen.Actions.{
  Env, leave_call, do_hangup, do_exit, cancel_pending_add, say, add_sent, do_add_to_call, is_active,
  dialed, dial_in, do_dial, answer_failed, in_answered_call, answer_sent, do_answer, reject_sent,
  do_reject, others_of,
}
use retro_vax_bbs.Phone.Screen.Coherence.{
  Coherent, Lands, Lands-if, Lands-then, names-blank, names-snoc,
}
use retro_vax_bbs.Phone.Screen.Receiving.{
  Good, go_idle-Coherent, notify-Good, forget_ring-Coherent, show_phone-Inv, at_state,
}

-- A field changes that neither the viewports nor the mode fix.
pub say-Good :
    (text : Text) (m : Model) (s : Calls) → Inv s → Coherent m → Lands Good (say text m s)
unfolding say
say-Good text m s v c = (v, record { own_first = c.own_first; mode = c.mode })

leave_call-Stays : (st : CallState) (m : Model) (s : Calls) → Inv s → Stays (leave_call st m s)
unfolding leave_call
leave_call-Stays idle m s v = v
leave_call-Stays pending m s v = hangup_call-Stays m.call_id m.session_id s v
leave_call-Stays active m s v = hangup_call-Stays m.call_id m.session_id s v

pub do_hangup-Good : (m : Model) (s : Calls) → Inv s → Lands Good (do_hangup m s)
unfolding do_hangup
do_hangup-Good m s v =
    Lands-then Good (leave_call m.state m s) _ (leave_call-Stays m.state m s v)
      (λ s' v'. (show_phone-Inv m s' v', go_idle-Coherent m))

pub do_exit-Good : (m : Model) (s : Calls) → Good m s → Lands Good (do_exit m s)
unfolding do_exit with_app
do_exit-Good m s g =
    Lands-then Good (leave_call m.state m s) _ (leave_call-Stays m.state m s g.0)
      (λ s' v'. (v', record { own_first = g.1.own_first; mode = g.1.mode }))

pub cancel_pending_add-Good :
    (m : Model) (s : Calls) → Good m s → Lands Good (cancel_pending_add m s)
unfolding cancel_pending_add
cancel_pending_add-Good m s g =
    Lands-then Good (cancel_add m.call_id m.pending_add_target m.username s) _
      (cancel_add-Stays m.call_id m.pending_add_target m.username s g.0)
      (λ s' v'.
        notify-Good _ 5 (record m { pending_add_target = [] }) s' v'
          (record { own_first = g.1.own_first; mode = g.1.mode }))

add_sent-Good :
    (target : Text) (m : Model) (r : Calls × Option Error)
    → Inv r.0
    → Coherent m
    → Lands Good (add_sent target m r)
unfolding add_sent
add_sent-Good target m (s, some e) v c = say-Good _ m s v c
add_sent-Good target m (s, none) v c = (v, record { own_first = c.own_first; mode = c.mode })

pub do_add_to_call-Good :
    (env : Env) (target : Text) (m : Model) (s : Calls)
    → Good m s
    → Lands Good (do_add_to_call env target m s)
unfolding do_add_to_call
do_add_to_call-Good env target m s g =
    Lands-if Good (is_empty target) _ _ (say-Good _ m s g.0 g.1) (
      Lands-if Good (not (is_active m.state)) _ _ (say-Good _ m s g.0 g.1) (
        add_sent-Good target m (add env.fold m.call_id m.username target s)
          (add-Inv env.fold m.call_id m.username target s g.0) g.1))

dialed-Good :
    (target : Text) (m : Model) (r : Calls × Result (Call × Participant))
    → m.state ≡ idle
    → Inv r.0
    → Coherent m
    → Lands Good (dialed target m r)
unfolding dialed
dialed-Good target m (s, err e) st v c = say-Good _ m s v c
dialed-Good target m (s, ok (call, caller)) st v c = (
  v,
  record {
    own_first =
        names-snoc m.viewports target
        ∙ ap (λ ns. ns ++ target ∷ []) c.own_first
        ∙ ap (λ us. m.username ∷ (us ++ target ∷ [])) (at_state idle m st c).1;
    mode = (target, refl, refl, (caller.incoming, refl));
  },
)

dial_in-Good :
    (st : CallState) (env : Env) (target : Text) (m : Model) (s : Calls)
    → m.state ≡ st
    → find_call (call_id m.username target env.now) s.calls ≡ none
    → Good m s
    → Lands Good (dial_in st env target m s)
unfolding dial_in
dial_in-Good active env target m s e unused g = do_add_to_call-Good env target m s g
dial_in-Good pending env target m s e unused g = say-Good _ m s g.0 g.1
dial_in-Good idle env target m s e unused g =
    dialed-Good target m (dial env.fold m.session_id m.username target env.now s) e
      (dial-Inv env.fold m.session_id m.username target env.now s g.0 unused) g.1

pub do_dial-Good :
    (env : Env) (target : Text) (m : Model) (s : Calls)
    → find_call (call_id m.username target env.now) s.calls ≡ none
    → Good m s
    → Lands Good (do_dial env target m s)
unfolding do_dial
do_dial-Good env target m s unused g =
    Lands-if Good (is_empty target) _ _ (say-Good _ m s g.0 g.1)
      (dial_in-Good m.state env target m s refl unused g)

-- An answer fails otherwise than because another session took the call.
unanswered-Good :
    (e : Error) (m : Model) (s : Calls)
    → Inv s
    → Coherent m
    → Lands Good (
        say
          (codes "%PHONE-E-ANSWER, " ++ error_text e)
          (record m { pending_incoming_call_id = [] })
          s)
unanswered-Good e m s v c =
    say-Good _ (record m { pending_incoming_call_id = [] }) s v
      (record { own_first = c.own_first; mode = c.mode })

answer_failed-Good :
    (e : Error) (m : Model) (s : Calls) → Inv s → Coherent m → Lands Good (answer_failed e m s)
unfolding answer_failed
answer_failed-Good already_answered m s v c =
    notify-Good _ 5 (forget_ring m) s v (forget_ring-Coherent m c)
answer_failed-Good self_call m s v c = unanswered-Good self_call m s v c
answer_failed-Good (not_connected u) m s v c = unanswered-Good (not_connected u) m s v c
answer_failed-Good (busy u) m s v c = unanswered-Good (busy u) m s v c
answer_failed-Good (being_rung u) m s v c = unanswered-Good (being_rung u) m s v c
answer_failed-Good (not_found u) m s v c = unanswered-Good (not_found u) m s v c
answer_failed-Good (unexpected_state u) m s v c = unanswered-Good (unexpected_state u) m s v c
answer_failed-Good (not_rejectable u) m s v c = unanswered-Good (not_rejectable u) m s v c
answer_failed-Good (not_active u) m s v c = unanswered-Good (not_active u) m s v c

answer_sent-Good :
    (m : Model) (o : Option Reply) → Keeps o → Coherent m → Lands Good (o >>= answer_sent m)
unfolding answer_sent in_answered_call
answer_sent-Good m none h c = absurd h
answer_sent-Good m (some (s, err e)) h c = answer_failed-Good e m s h c
answer_sent-Good m (some (s, ok (call, callee))) h c =
    let others = others_of m.username (Inviting.participants call.id s) in
    (
      h,
      record {
        own_first = ap (λ ns. m.username ∷ ns) (names-blank others);
        mode = (refl, (callee.incoming, refl));
      },
    )

pub do_answer-Good : (m : Model) (s : Calls) → Good m s → Lands Good (do_answer m s)
unfolding do_answer
do_answer-Good m s g =
    Lands-if Good (is_empty m.pending_incoming_call_id) _ _ (say-Good _ m s g.0 g.1) (
      answer_sent-Good m (answer_call m.pending_incoming_call_id m.session_id m.username s)
        (answer_call-Keeps m.pending_incoming_call_id m.session_id m.username s g.0) g.1)

reject_sent-Good :
    (m : Model) (o : Option (Calls × Option Error))
    → Keeps o
    → Coherent m
    → Lands Good (o >>= reject_sent m)
unfolding reject_sent
reject_sent-Good m none h c = absurd h
reject_sent-Good m (some (s, some e)) h c = notify-Good _ 5 m s h c
reject_sent-Good m (some (s, none)) h c = notify-Good _ 5 m s h c

pub do_reject-Good : (m : Model) (s : Calls) → Good m s → Lands Good (do_reject m s)
unfolding do_reject
do_reject-Good m s g =
    Lands-if Good (is_empty m.pending_incoming_call_id) _ _ (notify-Good _ 5 m s g.0 g.1) (
      reject_sent-Good (forget_ring m) (reject_call m.pending_incoming_call_id m.username s)
        (reject_call-Keeps m.pending_incoming_call_id m.username s g.0)
        (forget_ring-Coherent m g.1))
