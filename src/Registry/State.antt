-- ===== src/Registry/State.antt =====
-- internal/registry/registry.go: the registry's state and its methods. Each holds r.mu for its whole
-- body (or reads a snapshot under it), so a method is one step on the state. The diagnostic log is
-- left out.
use retro_vax_bbs.Prelude.{
  ℕ, ◌+◌, ◌%◌, ◌^◌, Text, text_discrete, ℕ_discrete, codes, Bool, true, false, Option, none, some,
  List, [], ◌∷◌, ◌++◌, length, ltb, ite, if◌then◌else◌, ◌>>=◌,
}
use retro_vax_bbs.Dict.{Dict, find, delete, put, keys}
use retro_vax_bbs.Registry.Event.{PhoneEvent}
use retro_vax_bbs.Registry.Decimal.{format_uint}

-- The notify channel is its buffer; `done` is whether the channel of that name is closed. A kick
-- hook is a closure of the SSH layer, which is known here by a number.
pub record SessionState : Type 0 where
  pub username : Text
  pub notify : List PhoneEvent
  pub done : Bool
  pub kick : Option ℕ

pub record Entry : Type 0 where
  pub role : Text
  pub admin_visible : Bool
  pub current_app : Text
  pub sessions : Dict ℕ

pub record SessionView : Type 0 where
  pub username : Text
  pub count : ℕ
  pub current_app : Text

-- Both indexes hold pointers to the same session objects: `heap` is the store of those objects, and
-- `allocated` the number of them.
pub record Registry : Type 0 where
  pub accounts : Dict Entry
  pub session_index : Dict ℕ
  pub next_id : ℕ
  pub heap : ℕ → SessionState
  pub allocated : ℕ

abbrev pub blank : SessionState
blank = record { username = []; notify = []; done = true; kick = none }

-- New
unfoldable pub init : Registry
init = record { accounts = []; session_index = []; next_id = 0; heap = λ _. blank; allocated = 0 }

-- A write through a pointer.
unfoldable pub write : ℕ → SessionState → (ℕ → SessionState) → ℕ → SessionState
write p v h q = ite (ℕ_discrete p q) v (h q)

abbrev pub fresh_entry : Text → Bool → Text → Entry
fresh_entry role admin_visible initial_app = record {
  role = role;
  admin_visible = admin_visible;
  current_app = initial_app;
  sessions = [];
}

abbrev pub entry_or : Option Entry → Entry → Entry
entry_or none e = e
entry_or (some e) _ = e

-- Register: the new session's id, and the registry that knows it.
unfoldable pub register : Text → Text → Bool → Text → Registry → Text × Registry
register username role admin_visible initial_app r =
    let next : ℕ = (r.next_id + 1) % 2 ^ 64 in
    let sid = format_uint next in
    let e = entry_or (find username r.accounts) (fresh_entry role admin_visible initial_app) in
    let ss : SessionState = record {
      username = username;
      notify = [];
      done = false;
      kick = none;
    } in
    (
      sid,
      record {
        accounts = put username (record e { sessions = put sid r.allocated e.sessions }) r.accounts;
        session_index = put sid r.allocated r.session_index;
        next_id = next;
        heap = write r.allocated ss r.heap;
        allocated = r.allocated + 1;
      },
    )

abbrev pub is_empty {ℓ} : {A : Type ℓ} → List A → Bool
is_empty [] = true
is_empty (x ∷ xs) = false

-- The account's part of Unregister.
unfoldable pub drop_session : Text → Text → Dict Entry → Dict Entry
drop_session sid username accounts = elim (find username accounts) [
  | none ↦ accounts
  | some e ↦
      let left = delete sid e.sessions in
      if is_empty left
      then delete username accounts
      else put username (record e { sessions = left }) accounts
]

-- close(ch) panics on a closed channel: `none`.
unfoldable pub close_done : SessionState → Option SessionState
close_done ss = if ss.done then none else some (record ss { done = true })

-- Unregister. `none` is the panic.
unfoldable pub unregister : Text → Registry → Option Registry
unfolding drop_session close_done
unregister sid r = elim (find sid r.session_index) [
  | none ↦ some r
  | some p ↦ do
    closed ← close_done (r.heap p)
    some (record r {
      accounts = drop_session sid closed.username r.accounts;
      session_index = delete sid r.session_index;
      heap = write p closed r.heap;
    })
]

unfoldable pub set_app : Text → Text → Registry → Registry
set_app username app r = elim (find username r.accounts) [
  | none ↦ r
  | some e ↦ record r { accounts = put username (record e { current_app = app }) r.accounts }
]

-- Events: the pointer stands for the pair of channels of one session.
unfoldable pub events : Text → Registry → Option ℕ
events sid r = find sid r.session_index

abbrev pub buffer_size : ℕ
buffer_size = 8

-- A send that does not block: with the buffer full the event is dropped.
unfoldable pub offer : PhoneEvent → SessionState → SessionState
offer event ss =
    if ltb (length ss.notify) buffer_size
    then record ss { notify = ss.notify ++ event ∷ [] }
    else ss

unfoldable pub send_to_session : Text → PhoneEvent → Registry → Registry
unfolding offer
send_to_session sid event r = elim (find sid r.session_index) [
  | none ↦ r
  | some p ↦ record r { heap = write p (offer event (r.heap p)) r.heap }
]

unfoldable pub sessions_of : Text → Registry → List Text
sessions_of username r = elim (find username r.accounts) [ none ↦ [] | some e ↦ keys e.sessions ]

unfoldable pub connected : Text → Registry → Bool
connected username r = elim (find username r.accounts) [
  | none ↦ false
  | some e ↦ ltb 0 (length e.sessions)
]

unfoldable pub get : Text → Registry → Option SessionView
get username r = elim (find username r.accounts) [
  | none ↦ none
  | some e ↦
      some (record { username = username; count = length e.sessions; current_app = e.current_app })
]

unfoldable pub set_kick : Text → ℕ → Registry → Registry
set_kick sid hook r = elim (find sid r.session_index) [
  | none ↦ r
  | some p ↦ record r { heap = write p (record (r.heap p) { kick = some hook }) r.heap }
]

-- The first loop of Kick: the hooks that are set.
unfoldable pub collect_kicks : Dict ℕ → (ℕ → SessionState) → List ℕ
collect_kicks [] h = []
collect_kicks ((sid, p) ∷ rest) h = elim (h p).kick [
  | none ↦ collect_kicks rest h
  | some k ↦ k ∷ collect_kicks rest h
]

-- Kick: the hooks that it calls, after the lock is released, and their number.
unfoldable pub kick : Text → Registry → List ℕ × ℕ
unfolding collect_kicks
kick username r =
    let kicks : List ℕ = elim (find username r.accounts) [
      | none ↦ []
      | some e ↦ collect_kicks e.sessions r.heap
    ] in
    (kicks, length kicks)

unfoldable pub notify_sessions : PhoneEvent → Dict ℕ → (ℕ → SessionState) → ℕ → SessionState
unfolding offer write
notify_sessions event [] h = h
notify_sessions event ((sid, p) ∷ rest) h =
    notify_sessions event rest (write p (offer event (h p)) h)

unfoldable pub notify_accounts : PhoneEvent → Dict Entry → (ℕ → SessionState) → ℕ → SessionState
unfolding notify_sessions
notify_accounts event [] h = h
notify_accounts event ((u, e) ∷ rest) h =
    notify_accounts event rest
      (ite (text_discrete e.role (codes "admin")) (notify_sessions event e.sessions h) h)

unfoldable pub notify_admins : PhoneEvent → Registry → Registry
unfolding notify_accounts
notify_admins event r = record r { heap = notify_accounts event r.accounts r.heap }
