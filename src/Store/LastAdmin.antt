-- ===== src/Store/LastAdmin.antt =====
-- internal/store/store.go: the last usable admin and the names over histories of calls.
use retro_vax_bbs.Prelude.{
  ℕ, ◌+◌, ◌≤◌, ◌≡◌, refl, sym, ◌∙◌, Text, Bool, true, false, ◌&&◌, Option, none, some, List, [],
  ◌∷◌, arith, ltb, ◌==◌, Bool-cases, Option-cases, inl, inr, subst, length,
}
use retro_vax_bbs.Store.Schema.{
  Error, Role, user, Store, usable_admin, named, count_rows, delete_users, is_pending, is_suspended,
  active, pending,
}
use retro_vax_bbs.Store.Accounts
use retro_vax_bbs.Store.Invites
use retro_vax_bbs.Store.Plan
use mathlib.Core.Option.{some-injective}
use retro_vax_bbs.Store.Accounts.{
  nullable_string, deleted, found, failed_once, guarded, insert, pending_named, expired_pending,
  free_username, count_usable_admins, new_row,
}
use retro_vax_bbs.Store.Invites.{usable}
use retro_vax_bbs.Store.Admins.{
  Sound, update-Sound, delete_guarded-Sound, update_guarded-Sound, insert-Sound, later-Sound,
}
use retro_vax_bbs.Store.Histories.{purged, Op, step, run, end_time}
use retro_vax_bbs.Store.Standing.{
  lifted, approved, and_right, and_left, delete_users-cases, failed_once-KeepsUsable,
  failed_once-KeepsName, same_users-Sound, new_row-username, pending-Sound,
}

module _ (enforced : Bool) (now : ℕ) (s : Store) (h : Sound now s) where
  free_username-Sound :
      (name : Text) (expiry : ℕ) → Sound now (free_username enforced now name expiry s)
  unfolding free_username
  free_username-Sound name expiry = elim (Bool-cases (ltb 0 expiry)) [
    | inl e ↦
        elim (Option-cases
          (delete_users enforced (λ u. named name u && expired_pending now expiry u) s)) [
            | inl f ↦ rw (e, f) h
            | inr f ↦
                rw (e, f.1)
                  (pending-Sound enforced now (λ u. named name u && expired_pending now expiry u) s
                    f.0 (λ u k. and_left (is_pending u.status) _ (and_right (named name u) _ k)) f.1
                    h)
          ]
    | inr e ↦ rw e h
  ]

  create_user-Sound :
      (name hash : Text) (role : Role) → Sound now (Accounts.create_user now name hash role s).0
  unfolding Accounts.create_user
  create_user-Sound name hash role =
      insert-Sound now (λ id. new_row now id name none hash active role) name s
        (λ id. new_row-username now id name none hash active role) h

  create_pending_account-Sound :
      (name email hash : Text) (expiry : ℕ)
      → Sound now (Accounts.create_pending_account enforced now name email hash expiry s).0
  unfolding Accounts.create_pending_account
  create_pending_account-Sound name email hash expiry =
      insert-Sound now (λ id. new_row now id name (nullable_string email) hash pending user) name
        (free_username enforced now name expiry s)
        (λ id. new_row-username now id name (nullable_string email) hash pending user)
        (free_username-Sound name expiry)

  purge-Sound :
      (age : ℕ) → Sound now (purged s (Accounts.purge_expired_pending_accounts enforced now age s))
  unfolding Accounts.purge_expired_pending_accounts
  purge-Sound age = elim (Bool-cases (age == 0)) [
    | inl e ↦ rw e h
    | inr e ↦ elim (Option-cases (delete_users enforced (expired_pending now age) s)) [
      | inl f ↦ rw (e, f) h
      | inr f ↦
          rw (e, f.1)
            (pending-Sound enforced now (expired_pending now age) s f.0
              (λ u k. and_left (is_pending u.status) _ k) f.1 h)
    ]
  ]

  activate_account-Sound : (name : Text) → Sound now (Accounts.activate_account name s)
  unfolding Accounts.activate_account named
  activate_account-Sound name =
      update-Sound now (pending_named name) (λ u. record u { status = active }) s (λ other u. refl)
        (approved now) h

  approve_pending_account-Sound :
      (name : Text) → Sound now (Accounts.approve_pending_account name s).0
  unfolding Accounts.approve_pending_account
  approve_pending_account-Sound name =
      elim (Bool-cases (count_rows (pending_named name) s.users == 0)) [
        | inl e ↦ rw e h
        | inr e ↦ rw e (activate_account-Sound name)
      ]

  deleted-Sound :
      (err : Store → Error) (b : Bool) (o : Option Store)
      → ((t : Store) → o ≡ some t → Sound now t)
      → Sound now (deleted err s b o).0
  unfolding deleted
  deleted-Sound err true none k = h
  deleted-Sound err false none k = h
  deleted-Sound err true (some t) k = k t refl
  deleted-Sound err false (some t) k = k t refl

  reject_pending_account-Sound :
      (name : Text) → Sound now (Accounts.reject_pending_account enforced name s).0
  unfolding Accounts.reject_pending_account
  reject_pending_account-Sound name = deleted-Sound _ _ _ (λ t e.
      pending-Sound enforced now (pending_named name) s t
        (λ u k. and_right (named name u) (is_pending u.status) k) e h)

  ban_user-Sound :
      (name : Text) (until : Option ℕ) → Sound now (Accounts.ban_user now name until s).0
  unfolding Accounts.ban_user named
  ban_user-Sound name until = elim (Bool-cases (count_rows (guarded now name s) s.users == 0)) [
    | inl e ↦ rw e h
    | inr e ↦ rw e (update_guarded-Sound now name _ s (λ other u. refl) h)
  ]

  unban_user-Sound : (name : Text) → Sound now (Accounts.unban_user name s).0
  unfolding Accounts.unban_user named
  unban_user-Sound name =
      elim (Bool-cases (count_rows (λ u. named name u && is_suspended u.status) s.users == 0)) [
        | inl e ↦ rw e h
        | inr e ↦ rw e (update-Sound now _ _ s (λ other u. refl) (lifted now) h)
      ]

  delete_user-Sound : (name : Text) → Sound now (Accounts.delete_user enforced now name s).0
  unfolding Accounts.delete_user
  delete_user-Sound name = deleted-Sound _ _ _ (λ t e.
      elim (delete_users-cases enforced (guarded now name s) s) [
        | inl f ↦ absurd cc
        | inr f ↦
            subst (λ t. Sound now t) (some-injective _ _ (sym f ∙ e))
              (delete_guarded-Sound now name s h)
      ])

  found-Sound : (name : Text) (t : Store) → Sound now t → Sound now (found name s t).0
  found-Sound name t k = elim (Bool-cases (count_rows (named name) s.users == 0)) [
    | inl e ↦ rw e k
    | inr e ↦ rw e k
  ]

  set_password-Sound : (name hash : Text) → Sound now (Accounts.set_password name hash s).0
  unfolding Accounts.set_password named usable_admin
  set_password-Sound name hash =
      found-Sound name _ (update-Sound now (named name) _ s (λ other u. refl) (λ u k. k) h)

  expire_password-Sound : (name : Text) → Sound now (Accounts.expire_password name s).0
  unfolding Accounts.expire_password named usable_admin
  expire_password-Sound name =
      found-Sound name _ (update-Sound now (named name) _ s (λ other u. refl) (λ u k. k) h)

  create_invite-users :
      (code : Text) (by uses expiry : ℕ)
      → (Invites.create_invite enforced code by uses expiry s).0.users ≡ s.users
  unfolding Invites.create_invite
  create_invite-users code by uses expiry = ground arith

  consume-users : (code : Text) → (Invites.validate_and_consume_invite now code s).0.users ≡ s.users
  unfolding Invites.validate_and_consume_invite
  consume-users code = ground arith

  set_plan-Sound :
      (is_print : ℕ → Bool) (trim_space : Text → Text) (name text : Text)
      → Sound now (Plan.set_plan is_print trim_space name text s).0
  unfolding Plan.set_plan named usable_admin
  set_plan-Sound is_print trim_space name text =
      elim (Bool-cases (ltb 512 (length (trim_space (Plan.strip_ansi is_print text))))) [
        | inl e ↦ rw e h
        | inr e ↦ rw e (update-Sound now (named name) _ s (λ other u. refl) (λ u k. k) h)
      ]

  -- Every call keeps the names unique and a usable admin.
  step-Sound :
      (is_print : ℕ → Bool) (trim_space : Text → Text) (o : Op)
      → Sound now (step enforced is_print trim_space now o s)
  unfolding step Accounts.record_failed_attempt Accounts.clear_failed_attempts
      Accounts.update_last_login Accounts.check_and_lift_expired_ban Plan.clear_plan named
      usable_admin
  step-Sound is_print trim_space (Op.create_user name hash role) = create_user-Sound name hash role
  step-Sound is_print trim_space (Op.create_pending_account name email hash expiry) =
      create_pending_account-Sound name email hash expiry
  step-Sound is_print trim_space (Op.purge_expired_pending_accounts age) = purge-Sound age
  step-Sound is_print trim_space (Op.activate_account name) = activate_account-Sound name
  step-Sound is_print trim_space (Op.approve_pending_account name) =
      approve_pending_account-Sound name
  step-Sound is_print trim_space (Op.reject_pending_account name) =
      reject_pending_account-Sound name
  step-Sound is_print trim_space (Op.ban_user name until) = ban_user-Sound name until
  step-Sound is_print trim_space (Op.unban_user name) = unban_user-Sound name
  step-Sound is_print trim_space (Op.check_and_lift_expired_ban id) =
      update-Sound now _ _ s (λ other u. refl) (lifted now) h
  step-Sound is_print trim_space (Op.delete_user name) = delete_user-Sound name
  step-Sound is_print trim_space (Op.record_failed_attempt id) =
      update-Sound now _ _ s (failed_once-KeepsName now) (failed_once-KeepsUsable now now) h
  step-Sound is_print trim_space (Op.clear_failed_attempts id) =
      update-Sound now _ _ s (λ other u. refl) (λ u k. k) h
  step-Sound is_print trim_space (Op.update_last_login id) =
      update-Sound now _ _ s (λ other u. refl) (λ u k. k) h
  step-Sound is_print trim_space (Op.set_password name hash) = set_password-Sound name hash
  step-Sound is_print trim_space (Op.expire_password name) = expire_password-Sound name
  step-Sound is_print trim_space (Op.create_invite code by uses expiry) =
      same_users-Sound now s _ (create_invite-users code by uses expiry) h
  step-Sound is_print trim_space (Op.validate_and_consume_invite code) =
      same_users-Sound now s _ (consume-users code) h
  step-Sound is_print trim_space (Op.set_plan name text) =
      set_plan-Sound is_print trim_space name text
  step-Sound is_print trim_space (Op.clear_plan name) =
      update-Sound now _ _ s (λ other u. refl) (λ u k. k) h

-- From a state in which no name has two rows and there is a usable admin, whatever calls follow, with
-- whatever waits between them, whether or not the foreign keys are enforced, at the end and at any
-- later time still no name has two rows and there is a usable admin: an admin's row that is active, or
-- suspended with a timed ban that is over. The lock after failed logins is no part of this: a usable admin
-- may be locked for a while.
pub run-Sound :
    (enforced : Bool) (is_print : ℕ → Bool) (trim_space : Text → Text) (now : ℕ)
    (calls : List (ℕ × Op)) (s : Store) (later : ℕ)
    → Sound now s
    → end_time now calls ≤ later
    → Sound later (run enforced is_print trim_space now calls s)
unfolding run end_time
run-Sound enforced is_print trim_space now [] s later h le = later-Sound now later s le h
run-Sound enforced is_print trim_space now ((wait, o) ∷ rest) s later h le =
    run-Sound enforced is_print trim_space (now + wait) rest
      (step enforced is_print trim_space (now + wait) o s) later
      (step-Sound enforced (now + wait) s (later-Sound now (now + wait) s (omega arith) h) is_print
        trim_space o)
      le
