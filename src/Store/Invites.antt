-- ===== src/Store/Invites.antt =====
-- internal/store/store.go: the methods on invite codes. A stored expiry is none if the string is in
-- neither of the two layouts that the code parses.
use retro_vax_bbs.Prelude.{
  ℕ, ◌+◌, ◌-◌, ◌*◌, Text, text_discrete, Bool, true, false, ◌&&◌, Option, none, some, List, [], ◌∷◌,
  ◌++◌, ltb, ◌==◌, if◌then◌else◌, ite,
}
use retro_vax_bbs.Store.Schema.{
  Invite, Store, Error, invite_invalid, constraint_failed, second, year_2090, has_id, count_rows,
}
use retro_vax_bbs.Store.Accounts.{Result}

-- SELECT ... FROM invites WHERE code = ?
unfoldable pub find_invite : Text → List Invite → Option Invite
find_invite code [] = none
find_invite code (i ∷ is) =
    let rest = find_invite code is in ite (text_discrete i.code code) (some i) rest

-- UPDATE invites SET uses_remaining = uses_remaining - 1 WHERE code = ?
unfoldable pub use_invite : Text → List Invite → List Invite
use_invite code [] = []
use_invite code (i ∷ is) =
    ite (text_discrete i.code code) (record i { uses_remaining = i.uses_remaining - 1 }) i
    ∷ use_invite code is

-- CreateInvite; the foreign key is checked where it is enforced.
unfoldable pub create_invite : Bool → Text → ℕ → ℕ → ℕ → Store → Result
create_invite enforced code created_by uses expires_at s = elim (find_invite code s.invites) [
  | some i ↦ (s, some constraint_failed)
  | none ↦
      if enforced && (count_rows (has_id created_by) s.users == 0)
      then (s, some constraint_failed)
      else (
        record s {
          invites =
              s.invites
              ++ (record {
                code = code;
                created_by = created_by;
                uses_remaining = uses;
                expires_at = some expires_at;
              }
                  ∷ []);
        },
        none,
      )
]

-- inviteExpired
unfoldable pub invite_expired : ℕ → Option ℕ → Bool
invite_expired now none = true
invite_expired now (some t) = ltb t year_2090 && ltb (t * second) now

-- The three tests of ValidateInvite and ValidateAndConsumeInvite.
unfoldable pub usable : ℕ → Option Invite → Bool
unfolding invite_expired
usable now none = false
usable now (some i) =
    if i.uses_remaining == 0 then false else if invite_expired now i.expires_at then false else true

-- ValidateInvite
unfoldable pub validate_invite : ℕ → Text → Store → Option Error
unfolding usable
validate_invite now code s =
    if usable now (find_invite code s.invites) then none else some invite_invalid

-- ValidateAndConsumeInvite
unfoldable pub validate_and_consume_invite : ℕ → Text → Store → Result
unfolding usable
validate_and_consume_invite now code s =
    if usable now (find_invite code s.invites)
    then (record s { invites = use_invite code s.invites }, none)
    else (s, some invite_invalid)

abbrev pub left : Option Invite → ℕ
left none = 0
left (some i) = i.uses_remaining

-- The uses that a code has left.
unfoldable pub uses_of : Text → Store → ℕ
uses_of code s = left (find_invite code s.invites)

-- Attempts at given times, and how many of those with a code are granted.
unfoldable pub after : List (ℕ × Text) → Store → Store
after [] s = s
after ((now, code) ∷ rest) s = after rest (validate_and_consume_invite now code s).0

abbrev pub one_if_granted : Option Error → ℕ
one_if_granted none = 1
one_if_granted (some e) = 0

unfoldable pub granted : Text → List (ℕ × Text) → Store → ℕ
granted wanted [] s = 0
granted wanted ((now, code) ∷ rest) s =
    let call = validate_and_consume_invite now code s in
    ite (text_discrete code wanted) (one_if_granted call.1) 0 + granted wanted rest call.0
