-- ===== src/Phone/Screen/Together.antt =====
-- internal/phone/app.go: the screens of several sessions over one call table. Each message is one step of
-- one screen, and what the other goroutines do to the table comes in between.
use retro_vax_bbs.Prelude.{
  ℕ, ◌≡◌, ◌≢◌, refl, ap, Text, Bool, Option, none, some, List, [], ◌∷◌, ◌++◌, All,
}
use retro_vax_bbs.Registry.Event.{EventType}
use retro_vax_bbs.Registry.State.{Registry}
use retro_vax_bbs.Phone.Calls.State.{Calls, new_calls, find_call}
use retro_vax_bbs.Phone.Calls.Admission.{call_id}
use retro_vax_bbs.Phone.Calls.Invariant.{Inv, Stays}
use retro_vax_bbs.Phone.Calls.Histories.{Op, dials, step, step-Stays, new_calls-Inv}
use retro_vax_bbs.Phone.Screen.Model.{Model, Turn, new_idle, new_dialing, new_answering}
use retro_vax_bbs.Phone.Screen.Actions.{Env}
use retro_vax_bbs.Phone.Screen.Keys.{Msg, update}
use retro_vax_bbs.Phone.Screen.Coherence.{Coherent, Lands, names-blank}
use retro_vax_bbs.Phone.Screen.Receiving.{
  Good, char_arrived-Good, clear_msg-Good, handle_phone_event-Good,
}
use retro_vax_bbs.Phone.Screen.Keyboard.{Unused, handle_key-Good}

pub record World : Type 0 where
  pub screens : List Model
  pub table : Calls

-- A hangup that the screen receives is another account's.
unfoldable pub Foreign : Text → Msg → Type 0
Foreign username (Msg.phone_event clock ev) = ev.type ≡ EventType.hangup → username ≢ ev.caller
Foreign username (Msg.window_size w h) = Unit
Foreign username (Msg.char_arrived r sender) = Unit
Foreign username (Msg.clear_msg gen) = Unit
Foreign username (Msg.key k) = Unit
Foreign username Msg.other_msg = Unit

-- The turn of one screen, put back among the others.
unfoldable pub settle : List Model → List Model → Option Turn → Option World
settle before after none = none
settle before after (some t) =
    some (record { screens = before ++ t.screen ∷ after; table = t.table })

unfoldable pub seated : List Model → Option Calls → Option World
seated ms none = none
seated ms (some s) = some (record { screens = ms; table = s })

-- What a history leads to: screens open in each of the three ways, messages come to any of them, and
-- operations of the table run elsewhere. Each dial makes an id that no call of the table has.
pub data Reached (fold : ℕ → ℕ) (reg : Registry) : Option World → Type 0 where
  start : Reached fold reg (some (record { screens = []; table = new_calls reg }))
  opens :
      (username session_id : Text) (out : Bool) (width height : ℕ) {ms : List Model} {s : Calls}
      → Reached fold reg (some (record { screens = ms; table = s }))
      → Reached fold reg (
          some (record { screens = new_idle username session_id out width height ∷ ms; table = s }))
  opens_dialing :
      (username session_id id callee : Text) (chars : ℕ) (out : Bool) (width height : ℕ)
      {ms : List Model} {s : Calls}
      → Reached fold reg (some (record { screens = ms; table = s }))
      → Reached fold reg (
          some (record {
            screens = new_dialing username session_id id callee chars out width height ∷ ms;
            table = s;
          }))
  opens_answering :
      (username session_id id : Text) (others : List Text) (chars : ℕ) (out : Bool)
      (width height : ℕ) {ms : List Model} {s : Calls}
      → Reached fold reg (some (record { screens = ms; table = s }))
      → Reached fold reg (
          some (record {
            screens = new_answering username session_id id others chars out width height ∷ ms;
            table = s;
          }))
  gets :
      (env : Env) (msg : Msg) (before : List Model) (m : Model) (after : List Model) {s : Calls}
      → Reached fold reg (some (record { screens = before ++ m ∷ after; table = s }))
      → Unused env m.username s
      → Foreign m.username msg
      → Reached fold reg (settle before after (update env msg m s))
  elsewhere :
      (op : Op) {ms : List Model} {s : Calls}
      → Reached fold reg (some (record { screens = ms; table = s }))
      → ((sid caller callee : Text) (now : ℕ)
          → op ≡ dials sid caller callee now
          → find_call (call_id caller callee now) s.calls ≡ none)
      → Reached fold reg (seated ms (step fold op s))

-- From a coherent screen over a sound table, Update panics on no message; the table stays sound and the
-- screen coherent.
pub update-Good :
    (env : Env) (msg : Msg) (m : Model) (s : Calls)
    → Unused env m.username s
    → Foreign m.username msg
    → Good m s
    → Lands Good (update env msg m s)
unfolding update Foreign
update-Good env (Msg.window_size w h) m s unused f g =
    (g.0, record { own_first = g.1.own_first; mode = g.1.mode })
update-Good env (Msg.char_arrived r sender) m s unused f g = char_arrived-Good r sender m s g
update-Good env (Msg.clear_msg gen) m s unused f g = clear_msg-Good gen m s g
update-Good env (Msg.phone_event clock ev) m s unused f g =
    handle_phone_event-Good ev.type clock ev m s f g
update-Good env (Msg.key k) m s unused f g = handle_key-Good env k m s unused g
update-Good env Msg.other_msg m s unused f g = g

abbrev pub Whole : Option World → Type 0
Whole none = ⊥
Whole (some w) = Inv w.table × All Coherent w.screens

All-here {ℓ κ} :
    {A : Type ℓ} (P : A → Type κ) (before : List A) (x : A) (after : List A)
    → All P (before ++ x ∷ after)
    → P x
All-here P [] x after h = h.0
All-here P (y ∷ ys) x after h = All-here P ys x after h.1

All-replace {ℓ κ} :
    {A : Type ℓ} (P : A → Type κ) (before : List A) (x y : A) (after : List A)
    → All P (before ++ x ∷ after)
    → P y
    → All P (before ++ y ∷ after)
All-replace P [] x y after h p = (p, h.1)
All-replace P (z ∷ zs) x y after h p = (h.0, All-replace P zs x y after h.1 p)

settle-Whole :
    (before : List Model) (m : Model) (after : List Model) (o : Option Turn)
    → All Coherent (before ++ m ∷ after)
    → Lands Good o
    → Whole (settle before after o)
unfolding settle
settle-Whole before m after none h g = g
settle-Whole before m after (some t) h g = (g.0, All-replace Coherent before m t.screen after h g.1)

seated-Whole :
    (ms : List Model) (o : Option Calls) → All Coherent ms → Stays o → Whole (seated ms o)
unfolding seated
seated-Whole ms none h v = v
seated-Whole ms (some s) h v = (v, h)

Reached-Whole : {fold : ℕ → ℕ} {reg : Registry} {o : Option World} → Reached fold reg o → Whole o
unfolding new_idle new_dialing new_answering
Reached-Whole {fold} {reg} start = (new_calls-Inv reg, tt)
Reached-Whole (opens u sid out width height r) =
    let h = Reached-Whole r in
    (h.0, (record { own_first = refl; mode = (refl, refl, refl, refl) }, h.1))
Reached-Whole (opens_dialing u sid id callee chars out width height r) =
    let h = Reached-Whole r in
    (h.0, (record { own_first = refl; mode = (callee, refl, refl, (chars, refl)) }, h.1))
Reached-Whole (opens_answering u sid id others chars out width height r) =
    let h = Reached-Whole r in
    (
      h.0,
      (
        record { own_first = ap (λ ns. u ∷ ns) (names-blank others); mode = (refl, (chars, refl)) },
        h.1,
      ),
    )
Reached-Whole (gets env msg before m after {s} r unused f) =
    let h = Reached-Whole r in
    settle-Whole before m after (update env msg m s) h.1
      (update-Good env msg m s unused f (h.0, All-here Coherent before m after h.1))
Reached-Whole {fold} (elsewhere op {ms} {s} r unused) =
    let h = Reached-Whole r in
    seated-Whole ms (step fold op s) h.1 (step-Stays fold op s h.0 unused)

Whole-some :
    (o : Option World) → Whole o → (w : World) × (o ≡ some w) × Inv w.table × All Coherent w.screens
Whole-some (some w) h = (w, refl, h.0, h.1)
Whole-some none h = absurd h

-- Every history of several screens over one call table, with the operations of other goroutines in
-- between, ends with no panic: the table is sound, and on each screen the first viewport is its user's and
-- the other viewports are those of the names that the screen lists as the others, in order; an idle screen
-- has no call id, lists nobody, and has no channel and no status line; one that waits for an answer lists
-- the callee alone, with its status line, and has a channel; one in a call has a channel and no status line.
-- The dials make new ids, and no screen receives a hangup of its own account.
pub Reached-Coherent :
    (fold : ℕ → ℕ) (reg : Registry) (o : Option World)
    → Reached fold reg o
    → (w : World) × (o ≡ some w) × Inv w.table × All Coherent w.screens
Reached-Coherent fold reg o r = Whole-some o (Reached-Whole r)
