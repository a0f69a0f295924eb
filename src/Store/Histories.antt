-- ===== src/Store/Histories.antt =====
-- internal/store: histories of the calls that change the state.
use retro_vax_bbs.Prelude.{ℕ, ◌+◌, Text, Bool, Option, none, some, List, [], ◌∷◌}
use retro_vax_bbs.Store.Schema.{Role, Store}
use retro_vax_bbs.Store.Accounts
use retro_vax_bbs.Store.Accounts.{failed_once, guarded, insert}
use retro_vax_bbs.Store.Invites
use retro_vax_bbs.Store.Plan

-- The calls that change the state, with their arguments.
pub data Op : Type 0 where
  create_user : Text → Text → Role → Op
  create_pending_account : Text → Text → Text → ℕ → Op
  purge_expired_pending_accounts : ℕ → Op
  activate_account : Text → Op
  approve_pending_account : Text → Op
  reject_pending_account : Text → Op
  ban_user : Text → Option ℕ → Op
  unban_user : Text → Op
  check_and_lift_expired_ban : ℕ → Op
  delete_user : Text → Op
  record_failed_attempt : ℕ → Op
  clear_failed_attempts : ℕ → Op
  update_last_login : ℕ → Op
  set_password : Text → Text → Op
  expire_password : Text → Op
  create_invite : Text → ℕ → ℕ → ℕ → Op
  validate_and_consume_invite : Text → Op
  set_plan : Text → Text → Op
  clear_plan : Text → Op

-- The state after PurgeExpiredPendingAccounts, also when it fails.
abbrev pub purged : Store → Option (Store × ℕ) → Store
purged s none = s
purged s (some t) = t.0

module _ (enforced : Bool) (is_print : ℕ → Bool) (trim_space : Text → Text) where
  unfoldable pub step : ℕ → Op → Store → Store
  step now (Op.create_user name hash role) s = (Accounts.create_user now name hash role s).0
  step now (Op.create_pending_account name email hash expiry) s =
      (Accounts.create_pending_account enforced now name email hash expiry s).0
  step now (Op.purge_expired_pending_accounts age) s =
      purged s (Accounts.purge_expired_pending_accounts enforced now age s)
  step now (Op.activate_account name) s = Accounts.activate_account name s
  step now (Op.approve_pending_account name) s = (Accounts.approve_pending_account name s).0
  step now (Op.reject_pending_account name) s = (Accounts.reject_pending_account enforced name s).0
  step now (Op.ban_user name until) s = (Accounts.ban_user now name until s).0
  step now (Op.unban_user name) s = (Accounts.unban_user name s).0
  step now (Op.check_and_lift_expired_ban id) s = (Accounts.check_and_lift_expired_ban now id s).0
  step now (Op.delete_user name) s = (Accounts.delete_user enforced now name s).0
  step now (Op.record_failed_attempt id) s = Accounts.record_failed_attempt now id s
  step now (Op.clear_failed_attempts id) s = Accounts.clear_failed_attempts id s
  step now (Op.update_last_login id) s = Accounts.update_last_login now id s
  step now (Op.set_password name hash) s = (Accounts.set_password name hash s).0
  step now (Op.expire_password name) s = (Accounts.expire_password name s).0
  step now (Op.create_invite code by uses expiry) s =
      (Invites.create_invite enforced code by uses expiry s).0
  step now (Op.validate_and_consume_invite code) s =
      (Invites.validate_and_consume_invite now code s).0
  step now (Op.set_plan name text) s = (Plan.set_plan is_print trim_space name text s).0
  step now (Op.clear_plan name) s = Plan.clear_plan name s

  -- Calls with the time that passes before each.
  unfoldable pub run : ℕ → List (ℕ × Op) → Store → Store
  run now [] s = s
  run now ((wait, o) ∷ rest) s = run (now + wait) rest (step (now + wait) o s)

unfoldable pub end_time : ℕ → List (ℕ × Op) → ℕ
end_time now [] = now
end_time now ((wait, o) ∷ rest) = end_time (now + wait) rest
