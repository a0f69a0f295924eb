-- ===== src/Phone/Calls/Channels.antt =====
-- internal/phone/call.go: closing channels, and sending to sessions and to participants.
use retro_vax_bbs.Prelude.{
  ℕ, ◌+◌, ◌≤◌, ◌≡◌, refl, ℕ_discrete, Option, none, some, List, [], ◌∷◌, ◌++◌, map, ite, arith,
  ◌>>=◌, Text, count, one_at, ltb, if◌then◌else◌, length,
}
use retro_vax_bbs.Registry.Event.{PhoneEvent}
use retro_vax_bbs.Registry.State.{send_to_session, sessions_of}
use retro_vax_bbs.Phone.Calls.State.{Chan, CharEvent, Participant, Outside}

-- close(ch): a channel that is not open makes it panic, which is `none`.
unfoldable pub close_chan : ℕ → List Chan → Option (List Chan)
close_chan h [] = none
close_chan h (c ∷ cs) =
    let rest = close_chan h cs in
    ite (ℕ_discrete c.handle h) (some cs) (do cs' ← rest; some (c ∷ cs'))

unfoldable pub close : ℕ → Outside → Option Outside
unfolding close_chan
close h o = do cs ← close_chan h o.chans; some (record o { chans = cs })

abbrev pub send : Text → PhoneEvent → Outside → Outside
send sid event o = record o { reg = send_to_session sid event o.reg }

-- A loop that sends one event to each of some sessions.
unfoldable pub send_each : List Text → PhoneEvent → Outside → Outside
send_each [] event o = o
send_each (sid ∷ sids) event o = send_each sids event (send sid event o)

-- notifyAccountLocked
unfoldable pub notify_account : Text → PhoneEvent → Outside → Outside
unfolding send_each
notify_account username event o = send_each (sessions_of username o.reg) event o

abbrev pub session_ids : List Participant → List Text
session_ids = map λ p. p.session_id

abbrev pub incoming_buf_size : ℕ
incoming_buf_size = 32

-- The channel after a send that does not block: a full buffer drops the event.
unfoldable pub offer_char : CharEvent → Chan → Chan
offer_char e c =
    if ltb (length c.buffer) incoming_buf_size then record c { buffer = c.buffer ++ e ∷ [] } else c

-- The send itself: on a closed channel it panics.
unfoldable pub push : ℕ → CharEvent → List Chan → Option (List Chan)
unfolding offer_char
push h e [] = none
push h e (c ∷ cs) =
    let rest = push h e cs in
    ite (ℕ_discrete c.handle h) (some (offer_char e c ∷ cs)) (do cs' ← rest; some (c ∷ cs'))

abbrev pub handles : List Chan → List ℕ
handles = map λ c. c.handle

-- An open channel closes, and is then open once less.
pub close_chan_open :
    (h : ℕ) (cs : List Chan)
    → 1 ≤ count h (handles cs)
    → (cs' : List Chan) × (close_chan h cs ≡ some cs')
      × ((k : ℕ) → count k (handles cs) ≡ one_at k h + count k (handles cs'))
unfolding close_chan
close_chan_open h [] le = absurd (omega arith)
close_chan_open h (c ∷ cs) le = elim (ℕ_discrete c.handle h) [
  | yes e ↦ (cs, ground arith, λ k. ground arith)
  | no n ↦
      let ih = close_chan_open h cs (unfold one_at in ground arith) in
      (c ∷ ih.0, ground (arith, ih.1), λ k. omega (arith, ih.2 k))
]

-- The same of `close`, which leaves the registry alone.
pub close_open :
    (h : ℕ) (o : Outside)
    → 1 ≤ count h (handles o.chans)
    → (o' : Outside) × (close h o ≡ some o')
      × (o'.reg ≡ o.reg)
      × ((k : ℕ) → count k (handles o.chans) ≡ one_at k h + count k (handles o'.chans))
unfolding close
close_open h o le =
    let c = close_chan_open h o.chans le in
    (record o { chans = c.0 }, ground (arith, c.1), refl, c.2)

pub chans-send_each :
    (sids : List Text) (event : PhoneEvent) (o : Outside) → (send_each sids event o).chans ≡ o.chans
unfolding send_each
chans-send_each [] event o = refl
chans-send_each (sid ∷ sids) event o = chans-send_each sids event (send sid event o)

pub push_open :
    (h : ℕ) (e : CharEvent) (cs : List Chan)
    → 1 ≤ count h (handles cs)
    → (cs' : List Chan) × (push h e cs ≡ some cs') × (handles cs' ≡ handles cs)
unfolding push
push_open h e [] le = absurd (omega arith)
push_open h e (c ∷ cs) le = elim (ℕ_discrete c.handle h) [
  | yes p ↦ (offer_char e c ∷ cs, ground arith, ground arith)
  | no n ↦
      let ih = push_open h e cs (unfold one_at in ground arith) in
      (c ∷ ih.0, ground (arith, ih.1), ground (arith, ih.2))
]
