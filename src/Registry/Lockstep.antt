-- ===== src/Registry/Lockstep.antt =====
-- internal/registry/registry.go: `sessionIndex` is "kept in lockstep with accounts[*].sessions".
use retro_vax_bbs.Prelude.{
  ℕ, ◌≤◌, ◌<◌, Text, text_discrete, ◌≡◌, ◌≢◌, refl, ap, Option, none, some, Bool, true, false, [],
  ◌∷◌, arith, ite, if◌then◌else◌, Option-cases, Bool-cases, inl, inr, ◌∙◌,
}
use retro_vax_bbs.Dict.{Dict, find, delete, put, find-put, find-delete}
use retro_vax_bbs.Registry.Decimal.{format_uint, format_uint-injective}
use retro_vax_bbs.Registry.State.{
  Registry, Entry, register, drop_session, is_empty, entry_or, fresh_entry,
}

-- The session that the account index knows under an account and an id.
unfoldable pub session_in : Option Entry → Text → Option ℕ
session_in none sid = none
session_in (some e) sid = find sid e.sessions

abbrev pub session_at : Text → Text → Dict Entry → Option ℕ
session_at u sid accounts = session_in (find u accounts) sid

pub record InStep (r : Registry) : Type 0 where
  pub indexed :
      (sid : Text) (p : ℕ)
      → find sid r.session_index ≡ some p
      → session_at (r.heap p).username sid r.accounts ≡ some p
  pub listed :
      (u sid : Text) (p : ℕ)
      → session_at u sid r.accounts ≡ some p
      → (find sid r.session_index ≡ some p) × ((r.heap p).username ≡ u)
  pub inhabited : (u : Text) (e : Entry) → find u r.accounts ≡ some e → e.sessions ≢ []
  pub live :
      (sid : Text) (p : ℕ)
      → find sid r.session_index ≡ some p
      → ((r.heap p).done ≡ false) × (p < r.allocated)
  pub apart :
      (s t : Text) (p : ℕ)
      → find s r.session_index ≡ some p
      → find t r.session_index ≡ some p
      → s ≡ t
  pub minted :
      (sid : Text) (p : ℕ)
      → find sid r.session_index ≡ some p
      → (n : ℕ) × (sid ≡ format_uint n) × (n ≤ r.next_id)

-- An id above all those given out is not in the index.
pub unminted :
    (r : Registry) (n : ℕ) → InStep r → r.next_id < n → find (format_uint n) r.session_index ≡ none
unminted r n v h = elim (Option-cases (find (format_uint n) r.session_index)) [
  | inl e ↦ e
  | inr (p, e) ↦
      let m = v.minted (format_uint n) p e in
      absurd (omega (arith, format_uint-injective n m.0 m.1, m.2))
]

pub session_at-put :
    (u : Text) (e : Entry) (m : Dict Entry) (u' sid : Text)
    → session_at u' sid (put u e m)
      ≡ ite (text_discrete u u') (find sid e.sessions) (session_at u' sid m)
unfolding session_in
session_at-put u e m u' sid = rw (find-put u u' e m, session_in) (ground arith)

session_at-delete :
    (u : Text) (m : Dict Entry) (u' sid : Text)
    → session_at u' sid (delete u m) ≡ ite (text_discrete u u') none (session_at u' sid m)
unfolding session_in
session_at-delete u m u' sid = rw (find-delete u u' m, session_in) (ground arith)

find-entry_or :
    (o : Option Entry) (role app : Text) (visible : Bool) (sid : Text)
    → find sid (entry_or o (fresh_entry role visible app)).sessions ≡ session_in o sid
unfolding session_in find
find-entry_or none role app visible sid = refl
find-entry_or (some e) role app visible sid = refl

find-is_empty : (m : Dict ℕ) (k : Text) → is_empty m ≡ true → find k m ≡ none
unfolding find
find-is_empty [] k h = refl
find-is_empty (x ∷ m) k h = cc

pub session_at-register :
    (u role : Text) (visible : Bool) (app : Text) (r : Registry) (u' sid' : Text)
    → let out = register u role visible app r in
      session_at u' sid' out.1.accounts
      ≡ ite
          (text_discrete u u')
          (ite (text_discrete out.0 sid') (some r.allocated) (session_at u sid' r.accounts))
          (session_at u' sid' r.accounts)
unfolding register
session_at-register u role visible app r u' sid' = rw session_at-put (
    ap (λ o. ite (text_discrete u u') o (session_at u' sid' r.accounts))
      (find-put _ sid' r.allocated _
        ∙ ap (ite (text_discrete _ sid') (some r.allocated))
            (find-entry_or (find u r.accounts) role app visible sid')))

pub drop_session_lem :
    (sid u : Text) (m : Dict Entry) (en : Entry)
    → find u m ≡ some en
    → drop_session sid u m ≡ (
        if is_empty (delete sid en.sessions)
        then delete u m
        else put u (record en { sessions = delete sid en.sessions }) m)
unfolding drop_session
drop_session_lem sid u m en e = ground arith

pub drop_session-none : (sid u : Text) (m : Dict Entry) → find u m ≡ none → drop_session sid u m ≡ m
unfolding drop_session
drop_session-none sid u m e = ground arith

pub session_at-drop :
    (sid u : Text) (m : Dict Entry) (u' sid' : Text)
    → session_at u' sid' (drop_session sid u m)
      ≡ ite
          (text_discrete u u')
          (ite (text_discrete sid sid') none (session_at u sid' m))
          (session_at u' sid' m)
unfolding session_in
session_at-drop sid u m u' sid' = elim (Option-cases (find u m)) [
  | inl e ↦ ground (arith, drop_session-none sid u m e)
  | inr (en, e) ↦
      rw (drop_session_lem sid u m en e) (elim (Bool-cases (is_empty (delete sid en.sessions))) [
        | inl none_left ↦ rw none_left (
            rw session_at-delete (
              ground (
                arith,
                find-delete sid sid' en.sessions,
                find-is_empty (delete sid en.sessions) sid' none_left,
              )))
        | inr some_left ↦ rw some_left (rw (session_at-put, find-delete) (ground arith))
      ])
]
