-- ===== src/Phone/Calls/Outcomes.antt =====
-- internal/phone/call.go: what admission checks, who is rung, and what Answer and
-- ReapUnreachableRings achieve.
use retro_vax_bbs.Prelude.{
  ℕ, ◌≡◌, ◌≢◌, ◌⊎◌, ◌++◌, refl, ◌∙◌, Text, true, false, none, some, List, [], ◌∷◌, arith, All,
}
use retro_vax_bbs.Phone.Calls.State.{
  Call, CallState, Calls, Outside, Participant, PendingAdd, active, already_answered, being_rung,
  err, find_add, find_call, idle, ok, pending, set_call,
}
use retro_vax_bbs.Phone.Calls.Channels.{close, close_open}
use retro_vax_bbs.Phone.Calls.Admission.{
  admit, has_pending_add, has_pending_dial, new_participant, ringable_sessions, rings_callee,
}
use retro_vax_bbs.Phone.Calls.Answering.{
  answer_call, answer_in, answer_pending, first, join_conference,
}
use retro_vax_bbs.Phone.Calls.Leaving.{reap_type, reap_unreachable_rings}
use retro_vax_bbs.Phone.Calls.Tables.{without, All-find_call, find-set_call_self}
use retro_vax_bbs.Phone.Calls.Invariant.{Backed, Inv, Shaped, pending-Shape}
use retro_vax_bbs.Phone.Calls.Keeps.Answering.{stop_ring_open}
use retro_vax_bbs.Phone.Calls.Keeps.Reaping.{reap_all_lem, for_user}

-- A callee is refused as being rung by an outstanding ring only.
pub admit-being_rung :
    (fold : ℕ → ℕ) (caller callee : Text) (s : Calls)
    → admit fold caller callee s ≡ some (being_rung callee)
    → (has_pending_dial callee s.calls ≡ true) ⊎ (has_pending_add callee s.pending_adds ≡ true)
unfolding admit
admit-being_rung fold caller callee s e = ground arith

no_ring_of_pending :
    (id u : Text) (calls : List Call) (adds : List PendingAdd) (call : Call)
    → find_call id calls ≡ some call
    → call.state ≡ pending
    → All (Backed calls) adds
    → find_add id u adds ≡ none
unfolding find_add
no_ring_of_pending id u calls [] call e st b = refl
no_ring_of_pending id u calls (a ∷ adds) call e st b =
    ground (arith, no_ring_of_pending id u calls adds call e st b.1, b.0)

answer_in-pending :
    (st : CallState) (call : Call) (id sid u : Text) (s : Calls)
    → st ≡ pending
    → answer_in st call id sid u s ≡ answer_pending call id sid u s
unfolding answer_in
answer_in-pending pending call id sid u s e = refl
answer_in-pending active call id sid u s e = cc
answer_in-pending idle call id sid u s e = cc

-- The call once a session has answered it.
abbrev pub answered_by : Participant → Call → Call
answered_by p call = record call { state = active; participants = call.participants ++ p ∷ [] }

answer_pending_lem :
    (call : Call) (sid u : Text) (s : Calls) (p : Participant) (o : Outside)
    → first call.participants ≡ some p
    → close call.stop_ring s.outside ≡ some o
    → let q = new_participant u sid s.next_chan in
      (s' : Calls) × (answer_pending call call.id sid u s ≡ some (s', ok (answered_by q call, q)))
      × (s'.calls ≡ set_call (answered_by q call) s.calls)
      × (s'.pending_adds ≡ s.pending_adds)
unfolding answer_pending
answer_pending_lem call sid u s p o pe ce = rw pe (rw ce (_, refl, refl, refl))

answer_refused :
    (call : Call) (sid u : Text) (s : Calls)
    → find_call call.id s.calls ≡ some call
    → call.state ≡ active
    → find_add call.id u s.pending_adds ≡ none
    → answer_call call.id sid u s ≡ some (s, err already_answered)
unfolding answer_call answer_in join_conference
answer_refused call sid u s here act uninvited = ground arith

-- First answer wins: in a sound table, the first session to answer a ringing call makes it active and joins it; after
-- that every session that answers the same call, of any account, is told that it was answered, and
-- changes nothing.
pub answer_first_wins :
    (sid u : Text) (s : Calls) (call : Call)
    → Inv s
    → find_call call.id s.calls ≡ some call
    → call.state ≡ pending
    → let q = new_participant u sid s.next_chan in
      (s' : Calls) × (answer_call call.id sid u s ≡ some (s', ok (answered_by q call, q)))
      × (find_call call.id s'.calls ≡ some (answered_by q call))
      × ((sid' u' : Text) → answer_call call.id sid' u' s' ≡ some (s', err already_answered))
unfolding answer_call
answer_first_wins sid u s call v here st =
    let p =
      pending-Shape call.state call.caller call.participants st
        (All-find_call Shaped call.id s.calls call here v.shaped) in
    let c = close_open call.stop_ring s.outside (stop_ring_open call s v here st) in
    let a = answer_pending_lem call sid u s p.0 c.0 p.1 c.1 in
    let q = new_participant u sid s.next_chan in
    let found : find_call call.id (a.0).calls ≡ some (answered_by q call) =
      rw a.2 (find-set_call_self (answered_by q call) call s.calls here) in
    (
      a.0,
      rw (here, answer_call) (answer_in-pending call.state call call.id sid u s st ∙ a.1),
      found,
      λ sid' u'.
          answer_refused (answered_by q call) sid' u' a.0 found refl
            (rw a.3 (no_ring_of_pending call.id u' s.calls s.pending_adds call here st v.backed)),
    )

without_dial :
    (u : Text) (calls : List Call) → has_pending_dial u (without (rings_callee u) calls) ≡ false
unfolding has_pending_dial
without_dial u [] = refl
without_dial u (c ∷ cs) = ground (arith, without_dial u cs)

without_add :
    (u : Text) (adds : List PendingAdd) → has_pending_add u (without (for_user u) adds) ≡ false
unfolding has_pending_add
without_add u [] = refl
without_add u (a ∷ adds) = ground (arith, without_add u adds)

-- In a sound table, once no session of an account can be rung, a reap ends every ring aimed at it, by a call or by an
-- invitation, and no other call or invitation; so nobody is refused for a ring that cannot land.
pub reap_frees :
    (u : Text) (s : Calls)
    → Inv s
    → ringable_sessions u s ≡ []
    → (s' : Calls) × (reap_unreachable_rings u s ≡ some s')
      × (s'.calls ≡ without (rings_callee u) s.calls)
      × (s'.pending_adds ≡ without (for_user u) s.pending_adds)
      × ((fold : ℕ → ℕ) (caller : Text) → admit fold caller u s' ≢ some (being_rung u))
unfolding reap_unreachable_rings
reap_frees u s v unreachable =
    let r = reap_all_lem u (reap_type u s) s v in
    (
      record s {
        calls = without (rings_callee u) s.calls;
        pending_adds = without (for_user u) s.pending_adds;
        outside = r.0;
      },
      rw unreachable r.1,
      refl,
      refl,
      λ fold caller e. ground (
        arith,
        admit-being_rung fold caller u _ e,
        without_dial u s.calls,
        without_add u s.pending_adds,
      ),
    )
