-- ===== src/Phone/Screen/Connecting.antt =====
-- internal/phone/app.go: a DIAL on one screen and the ANSWER to it on another, over the call table.
use retro_vax_bbs.Prelude.{
  codes, ℕ, ◌≡◌, ◌≢◌, refl, sym, ◌∙◌, ap, Text, text_discrete, true, false, none, some, List, [],
  ◌∷◌, ◌++◌, if_pos, if_neg, map, arith, subst,
}
use retro_vax_bbs.Registry.State.{is_empty}
use retro_vax_bbs.Phone.Calls.State.{
  Call, CallState, Calls, Participant, Result, ok, idle, pending, active, find_call, delete_call,
}
use retro_vax_bbs.Phone.Calls.Admission.{
  dial, call_id, new_call, new_participant, entered, ring_sessions, ring_event,
}
use retro_vax_bbs.Phone.Calls.Answering.{answer_call}
use retro_vax_bbs.Phone.Calls.Inviting as Inviting
use retro_vax_bbs.Phone.Calls.Invariant.{Inv}
use retro_vax_bbs.Phone.Calls.Keeps.Dialing.{dial-Inv}
use retro_vax_bbs.Phone.Calls.Outcomes.{answered_by, answer_first_wins}
use retro_vax_bbs.Phone.Calls.Refusals.{MayRing, admit_iff}
use retro_vax_bbs.Registry.Decimal.{format_uint}
use retro_vax_bbs.Phone.Screen.Model.{Model, Turn, forget_ring}
use retro_vax_bbs.Phone.Screen.Actions.{
  Env, do_dial, dial_in, dialed, do_answer, answer_sent, in_answered_call, others_of,
}

not_empty : (xs : Text) (y : ℕ) (ys : Text) → is_empty (xs ++ y ∷ ys) ≡ false
not_empty [] y ys = refl
not_empty (x ∷ xs) y ys = refl

found_first : (c : Call) (cs : List Call) → find_call c.id (c ∷ cs) ≡ some c
unfolding find_call
found_first c cs = ground arith

-- The table once the dial has been admitted.
abbrev ringing_table : Env → Text → Model → Calls → Calls
ringing_table env target m s =
    let id = call_id m.username target env.now in
    ring_sessions target (ring_event id m.username target)
      (entered id m.session_id m.username target s)

dial_in-idle :
    (st : CallState) (env : Env) (target : Text) (m : Model) (s : Calls)
    → st ≡ idle
    → dial_in st env target m s
      ≡ dialed target m (dial env.fold m.session_id m.username target env.now s)
unfolding dial_in
dial_in-idle idle env target m s e = refl
dial_in-idle pending env target m s e = absurd (cc)
dial_in-idle active env target m s e = absurd (cc)

abbrev rung_call : Env → Text → Model → Calls → Call
rung_call env target m s =
    new_call (call_id m.username target env.now) m.session_id m.username target s.next_chan

dial_lem :
    (env : Env) (target : Text) (m : Model) (s : Calls)
    → MayRing env.fold m.username target s
    → dial env.fold m.session_id m.username target env.now s ≡ (
      ringing_table env target m s,
      ok (rung_call env target m s, new_participant m.username m.session_id s.next_chan),
    )
unfolding dial
dial_lem env target m s may = rw ((admit_iff env.fold m.username target s).1 may, dial) refl

do_dial_lem :
    (env : Env) (target : Text) (m : Model) (s : Calls)
    → MayRing env.fold m.username target s
    → is_empty target ≡ false
    → m.state ≡ idle
    → do_dial env target m s
      ≡ dialed target m (
        ringing_table env target m s,
        ok (rung_call env target m s, new_participant m.username m.session_id s.next_chan),
      )
unfolding do_dial
do_dial_lem env target m s may ne st =
    rw ne
      (dial_in-idle m.state env target m s st ∙ ap (dialed target m) (dial_lem env target m s may))

ringing_table-Inv :
    (env : Env) (target : Text) (m : Model) (s : Calls)
    → Inv s
    → find_call (call_id m.username target env.now) s.calls ≡ none
    → MayRing env.fold m.username target s
    → Inv (ringing_table env target m s)
ringing_table-Inv env target m s v unused may =
    subst (λ (r : Calls × Result (Call × Participant)). Inv r.0) (dial_lem env target m s may)
      (dial-Inv env.fold m.session_id m.username target env.now s v unused)

ringing_found :
    (env : Env) (target : Text) (m : Model) (s : Calls)
    → find_call (rung_call env target m s).id (ringing_table env target m s).calls
      ≡ some (rung_call env target m s)
unfolding ring_sessions
ringing_found env target m s =
    found_first (rung_call env target m s) (delete_call (call_id m.username target env.now) s.calls)

answering_lem :
    (n : Model) (s s' : Calls) (call : Call) (q : Participant)
    → is_empty n.pending_incoming_call_id ≡ false
    → answer_call n.pending_incoming_call_id n.session_id n.username s ≡ some (s', ok (call, q))
    → do_answer n s ≡ in_answered_call call q n s'
unfolding do_answer answer_sent
answering_lem n s s' call q ne e = rw (ne, e) refl

do_answer_lem :
    (id : Text) (n : Model) (s s' : Calls) (call : Call) (q : Participant)
    → n.pending_incoming_call_id ≡ id
    → is_empty id ≡ false
    → answer_call id n.session_id n.username s ≡ some (s', ok (call, q))
    → do_answer n s ≡ in_answered_call call q n s'
do_answer_lem id n s s' call q here ne e =
    answering_lem n s s' call q (ap is_empty here ∙ ne)
      (ap (λ i. answer_call i n.session_id n.username s) here ∙ e)

named_in :
    (call : Call) (s : Calls)
    → find_call call.id s.calls ≡ some call
    → Inviting.participants call.id s ≡ map (λ (p : Participant). p.username) call.participants
unfolding Inviting.participants
named_in call s e = rw (e, Inviting.participants) refl

only_other : (mine other : Text) → other ≢ mine → others_of mine (other ∷ mine ∷ []) ≡ other ∷ []
unfolding others_of
only_other mine other n =
    rw
      (
        if_neg (text_discrete other mine) n true false,
        if_pos (text_discrete mine mine) refl true false,
      )
      refl

-- A screen takes part in a call as one of its participants.
abbrev pub Seated : Model → Call → Participant → Type 0
Seated m call p =
    (m.call_id ≡ call.id)
    × (p.username ≡ m.username)
    × (p.session_id ≡ m.session_id)
    × (m.my_chars ≡ some p.incoming)

-- What a screen holds of its call.
abbrev Holds : Model → Call → Participant → Model → Type 0
Holds m' call p m =
    (m'.call_id ≡ call.id)
    × (m'.username ≡ m.username)
    × (m'.session_id ≡ m.session_id)
    × (m'.my_chars ≡ some p.incoming)

dialed_lem :
    (target : Text) (m : Model) (s : Calls) (call : Call) (p : Participant)
    → (t : Turn) × (dialed target m (s, ok (call, p)) ≡ some t)
      × (t.table ≡ s)
      × (t.screen.state ≡ pending)
      × Holds t.screen call p m
      × (t.screen.calls_with ≡ target ∷ [])
unfolding dialed
dialed_lem target m s call p = (_, refl, refl, refl, (refl, refl, refl, refl), refl)

in_answered_call_lem :
    (n : Model) (s : Calls) (call : Call) (q : Participant)
    → (u : Turn) × (in_answered_call call q n s ≡ some u)
      × (u.table ≡ s)
      × (u.screen.state ≡ active)
      × Holds u.screen call q n
      × (u.screen.calls_with ≡ others_of n.username (Inviting.participants call.id s))
unfolding in_answered_call forget_ring
in_answered_call_lem n s call q = (_, refl, refl, refl, (refl, refl, refl, refl), refl)

-- Over a sound table, an idle screen that dials somebody whom it may ring, by a call id that is new, waits
-- for the answer; and a screen of another account that has received the ring of this call and answers it is
-- then in the same call of the table, which is active and has these two screens as its participants: both
-- hold the id of that call and the channel of their own participant, and each lists the other's account.
pub do_answer-do_dial :
    (env : Env) (m n : Model) (s : Calls)
    → Inv s
    → find_call (call_id m.username n.username env.now) s.calls ≡ none
    → MayRing env.fold m.username n.username s
    → is_empty n.username ≡ false
    → m.state ≡ idle
    → n.pending_incoming_call_id ≡ call_id m.username n.username env.now
    → (t u : Turn) × (do_dial env n.username m s ≡ some t)
      × (t.screen.state ≡ pending)
      × (do_answer n t.table ≡ some u)
      × (u.screen.state ≡ active)
      × ((call : Call) × (p q : Participant) × (find_call call.id u.table.calls ≡ some call)
          × (call.state ≡ active)
          × (call.participants ≡ p ∷ q ∷ [])
          × Seated t.screen call p
          × Seated u.screen call q
          × (t.screen.calls_with ≡ n.username ∷ [])
          × (u.screen.calls_with ≡ m.username ∷ []))
do_answer-do_dial env m n s v unused may ne st rings =
    let id = call_id m.username n.username env.now in
    let call = rung_call env n.username m s in
    let p = new_participant m.username m.session_id s.next_chan in
    let s1 = ringing_table env n.username m s in
    let t = dialed_lem n.username m s1 call p in
    let w =
      answer_first_wins n.session_id n.username s1 call
        (ringing_table-Inv env n.username m s v unused may) (ringing_found env n.username m s)
        refl in
    let q = new_participant n.username n.session_id s1.next_chan in
    let u = in_answered_call_lem n w.0 (answered_by q call) q in
    (
      t.0,
      u.0,
      do_dial_lem env n.username m s may ne st ∙ t.1,
      t.3,
      ap (do_answer n) t.2
          ∙ (do_answer_lem id n s1 w.0 (answered_by q call) q rings
                (not_empty m.username 45 (62 ∷ (n.username ++ (codes "@" ++ format_uint env.now))))
                w.1
              ∙ u.1),
      u.3,
      (
        answered_by q call,
        p,
        q,
        rw u.2 w.2,
        refl,
        refl,
        (t.4.0, sym t.4.1, sym t.4.2, t.4.3),
        (u.4.0, sym u.4.1, sym u.4.2, u.4.3),
        t.5,
        u.5
            ∙ ap (others_of n.username) (named_in (answered_by q call) w.0 w.2)
            ∙ only_other n.username m.username (λ e. may.others (ap (map env.fold) e)),
      ),
    )
