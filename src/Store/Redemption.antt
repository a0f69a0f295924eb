-- ===== src/Store/Redemption.antt =====
-- internal/store/store.go: the uses of an invite code, and the two ways to check it.
use retro_vax_bbs.Prelude.{
  ℕ, ◌+◌, ◌-◌, ◌≤◌, ◌≡◌, refl, sym, Text, text_discrete, true, false, Option, none, some, List, [],
  ◌∷◌, arith, ite, Bool-cases, inl, inr, ◌⊎◌, if_pos, if_neg, ap, subst, ◌∙◌,
}
use retro_vax_bbs.Store.Schema.{Invite, Store, invite_invalid}
use retro_vax_bbs.Store.Invites.{
  find_invite, use_invite, usable, validate_invite, validate_and_consume_invite, left, uses_of,
  after, one_if_granted, granted,
}

usable-left : (now : ℕ) (o : Option Invite) → usable now o ≡ true → 1 ≤ left o
unfolding usable
usable-left now none e = absurd cc
usable-left now (some i) e = ground arith

module _ (code : Text) (i : Invite) (is : List Invite) where
  find_invite-hit : i.code ≡ code → find_invite code (i ∷ is) ≡ some i
  unfolding find_invite
  find_invite-hit p = if_pos (text_discrete i.code code) p (some i) (find_invite code is)

  find_invite-skip : (i.code ≡ code → ⊥) → find_invite code (i ∷ is) ≡ find_invite code is
  unfolding find_invite
  find_invite-skip q = if_neg (text_discrete i.code code) q (some i) (find_invite code is)

  use_invite-hit :
      i.code ≡ code
      → use_invite code (i ∷ is)
        ≡ record i { uses_remaining = i.uses_remaining - 1 } ∷ use_invite code is
  unfolding use_invite
  use_invite-hit p =
      ap (λ j. j ∷ use_invite code is)
        (if_pos (text_discrete i.code code) p (record i { uses_remaining = i.uses_remaining - 1 })
          i)

  use_invite-skip : (i.code ≡ code → ⊥) → use_invite code (i ∷ is) ≡ i ∷ use_invite code is
  unfolding use_invite
  use_invite-skip q =
      ap (λ j. j ∷ use_invite code is)
        (if_neg (text_discrete i.code code) q (record i { uses_remaining = i.uses_remaining - 1 })
          i)

use_invite-nil :
    (code : Text) → left (find_invite code (use_invite code [])) ≡ left (find_invite code []) - 1
unfolding find_invite use_invite
use_invite-nil code = omega arith

refl_nil : (code other : Text) → find_invite other (use_invite code []) ≡ find_invite other []
unfolding use_invite
refl_nil code other = refl

use_invite-found :
    (code : Text) (is : List Invite)
    → left (find_invite code (use_invite code is)) ≡ left (find_invite code is) - 1
use_invite-found code [] = use_invite-nil code
use_invite-found code (i ∷ is) = elim (text_discrete i.code code) [
  | yes p ↦
      rw
        (
          use_invite-hit code i is p,
          find_invite-hit code i is p,
          find_invite-hit code (record i { uses_remaining = i.uses_remaining - 1 })
              (use_invite code is) p,
        )
        refl
  | no q ↦
      rw
        (
          use_invite-skip code i is q,
          find_invite-skip code i is q,
          find_invite-skip code i (use_invite code is) q,
        )
        (use_invite-found code is)
]

use_invite-other :
    (code other : Text) (is : List Invite)
    → (code ≡ other → ⊥)
    → find_invite other (use_invite code is) ≡ find_invite other is
use_invite-other code other [] ne = refl_nil code other
use_invite-other code other (i ∷ is) ne = elim (text_discrete i.code code) [
  | yes p ↦
      let q : i.code ≡ other → ⊥ = λ e. ne (sym p ∙ e) in
      rw
        (
          use_invite-hit code i is p,
          find_invite-skip other i is q,
          find_invite-skip other (record i { uses_remaining = i.uses_remaining - 1 })
              (use_invite code is) q,
        )
        (use_invite-other code other is ne)
  | no q ↦ elim (text_discrete i.code other) [
    | yes p ↦
        rw
          (
            use_invite-skip code i is q,
            find_invite-hit other i is p,
            find_invite-hit other i (use_invite code is) p,
          )
          refl
    | no r ↦
        rw
          (
            use_invite-skip code i is q,
            find_invite-skip other i is r,
            find_invite-skip other i (use_invite code is) r,
          )
          (use_invite-other code other is ne)
  ]
]

module _ (code : Text) (now : ℕ) (s : Store) where
  pub grant :
      usable now (find_invite code s.invites) ≡ true
      → validate_and_consume_invite now code s
        ≡ (record s { invites = use_invite code s.invites }, none)
  unfolding validate_and_consume_invite
  grant e = rw e refl

  pub refuse :
      usable now (find_invite code s.invites) ≡ false
      → validate_and_consume_invite now code s ≡ (s, some invite_invalid)
  unfolding validate_and_consume_invite
  refuse e = rw e refl

  one_use :
      (wanted : Text)
      → ite
            (text_discrete code wanted)
            (one_if_granted (validate_and_consume_invite now code s).1)
            0
          + uses_of wanted (validate_and_consume_invite now code s).0
        ≡ uses_of wanted s
  unfolding uses_of
  one_use wanted = elim (Bool-cases (usable now (find_invite code s.invites))) [
    | inl e ↦ elim (text_discrete code wanted) [
      | yes p ↦
          let more : 1 ≤ left (find_invite wanted s.invites) =
            usable-left now (find_invite wanted s.invites)
              (subst (λ c. usable now (find_invite c s.invites) ≡ true) p e) in
          let fewer : left (find_invite wanted (use_invite code s.invites))
              ≡ left (find_invite wanted s.invites) - 1 =
            subst
              (λ c.
                left (find_invite wanted (use_invite c s.invites))
                ≡ left (find_invite wanted s.invites) - 1)
              (sym p) (use_invite-found wanted s.invites) in
          rw (grant e, if_pos {C = ℕ} (text_discrete code wanted) p 1 0)
            (omega (arith, more, fewer))
      | no q ↦
          rw (grant e, if_neg {C = ℕ} (text_discrete code wanted) q 1 0)
            (omega (arith, ap left (use_invite-other code wanted s.invites q)))
    ]
    | inr e ↦ rw (refuse e) (grind arith)
  ]

-- However the attempts at all codes are interleaved, and at whatever times, the number of grants of a
-- code and its uses that are left afterwards add up to the uses it had: a use is never lost, and a
-- code is never granted more often than it has uses.
pub granted_lem :
    (wanted : Text) (attempts : List (ℕ × Text)) (s : Store)
    → granted wanted attempts s + uses_of wanted (after attempts s) ≡ uses_of wanted s
unfolding granted after
granted_lem wanted [] s = omega arith
granted_lem wanted ((now, code) ∷ rest) s = omega (
  arith,
  one_use code now s wanted,
  granted_lem wanted rest (validate_and_consume_invite now code s).0,
)

-- ValidateInvite foretells ValidateAndConsumeInvite at the same time and state: either both accept the
-- code, which then loses one use, or both refuse it and the state stays as it is.
pub consume-validate :
    (now : ℕ) (code : Text) (s : Store)
    → ((validate_invite now code s ≡ none)
        × ((validate_and_consume_invite now code s).1 ≡ none)
        × (uses_of code s ≡ uses_of code (validate_and_consume_invite now code s).0 + 1))
      ⊎ ((validate_invite now code s ≡ some invite_invalid)
          × (validate_and_consume_invite now code s ≡ (s, some invite_invalid)))
unfolding validate_invite uses_of
consume-validate now code s = elim (Bool-cases (usable now (find_invite code s.invites))) [
  | inl e ↦
      rw (grant code now s e, e)
        (inl (
          refl,
          refl,
          omega (
            arith,
            use_invite-found code s.invites,
            usable-left now (find_invite code s.invites) e,
          ),
        ))
  | inr e ↦ rw (refuse code now s e, e) (inr (refl, refl))
]
