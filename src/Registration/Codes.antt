-- ===== src/Registration/Codes.antt =====
-- internal/registration/app.go: when a registration takes a use of an invite code.
use retro_vax_bbs.Prelude.{ℕ, ◌≡◌, Text, true, some, [], ◌∷◌, ◌++◌, ◌⊎◌}
use retro_vax_bbs.Store.Schema.{User, Store, active}
use retro_vax_bbs.Store.Accounts.{get_user_by_username, free_username}
use retro_vax_bbs.Store.Invites.{use_invite, usable, find_invite}
use retro_vax_bbs.Registration.Model.{Step, Model, Env, System, is_invite_only}
use retro_vax_bbs.Registration.Pending.{pending_row}

-- One use of the model's code is taken, and the account that it is for is active.
abbrev pub Redeemed : Env → Model → Store → Model × System → Type 0
Redeemed env m db r =
    (m.step ≡ Step.confirm)
    × (is_invite_only m.mode ≡ true)
    × (usable env.now (find_invite m.invite db.invites) ≡ true)
    × (r.1.db.invites ≡ use_invite m.invite db.invites)
    × (r.0.step ≡ Step.done)
    × ((u : User) × (get_user_by_username m.username r.1.db ≡ some u) × (u.status ≡ active))

abbrev pub Spends : Env → Model → Store → Model × System → Type 0
Spends env m db r = (r.1.db.invites ≡ db.invites) ⊎ Redeemed env m db r

module _ (env : Env) (m : Model) (s : System) (h : Text) (here : m.step ≡ Step.confirm) where
  freed : Store
  freed = free_username env.enforced env.now m.username m.pending_expiry s.db

  added : ℕ → Store
  unfolding freed
  added id = record freed {
    users = freed.users ++ pending_row env.now id m.username m.email h ∷ [];
  }
