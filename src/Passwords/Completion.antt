-- ===== src/Passwords/Completion.antt =====
-- internal/setpassword/setpassword.go: the dialogue that does not ask for the current password, from its
-- opening to the stored hash.
use retro_vax_bbs.Prelude.{
  arith, ◌++◌, sym, if◌then◌else◌, text_discrete, if_neg, ℕ, ◌≡◌, refl, ap, ◌∙◌, Text, Bool, true,
  false, none, some, List, [], ◌∷◌,
}
use mathlib.Core.List.{append-nil, append_assoc}
use retro_vax_bbs.Phone.Calls.State.{same}
use retro_vax_bbs.Phone.Screen.Model.{utf8, utf8_rune}
use retro_vax_bbs.Store.Schema.{Store}
use retro_vax_bbs.Store.Accounts.{Result, set_password}
use retro_vax_bbs.Registration.Model.{hashed, validate_password}
use retro_vax_bbs.Passwords.Dialogue.{
  Step, Model, Env, Key, new_model, finish, stored, finalise_with, finalise, submit_new, submit_at,
  press, update,
}

-- The keys one after the other.
unfoldable pub type_all : Env → List Key → Model × Store → Model × Store
type_all env [] (m, s) = (m, s)
type_all env (k ∷ ks) (m, s) = type_all env ks (update env k m s)

same_self : (t : Text) → same t t ≡ true
same_self t = ground arith

unfoldable pub all_runes : List (List ℕ) → List ℕ
all_runes [] = []
all_runes (c ∷ cs) = c ++ all_runes cs

-- The key that brings a piece of the text: a blank comes as a key of its own.
unfoldable pub piece : List ℕ → Key
piece c = if same c (32 ∷ []) then Key.space else Key.runes c

-- The pieces of a text, and Enter.
unfoldable pub line_keys : List (List ℕ) → List Key → List Key
unfolding piece
line_keys [] ks = Key.enter ∷ ks
line_keys (c ∷ cs) ks = piece c ∷ line_keys cs ks

utf8-append : (xs ys : List ℕ) → utf8 (xs ++ ys) ≡ utf8 xs ++ utf8 ys
unfolding utf8
utf8-append [] ys = refl
utf8-append (x ∷ xs) ys =
    ap (λ t. utf8_rune x ++ t) (utf8-append xs ys)
    ∙ sym (append_assoc (utf8_rune x) (utf8 xs) (utf8 ys))

module _ (env : Env) (actor target : Text) (cancelable : Bool) (s : Store) where
  abbrev entering : Step → Text → Text → Model
  entering st chosen input = record (new_model actor target false cancelable) {
    step = st;
    input = input;
    new_password = chosen;
  }

  piece_typed :
      (c : List ℕ) (st : Step) (chosen input : Text)
      → update env (piece c) (entering st chosen input) s
        ≡ (entering st chosen (input ++ utf8 c), s)
  unfolding update press new_model piece utf8 text_discrete
  piece_typed c st chosen input = elim (text_discrete c (32 ∷ [])) [
    | yes e ↦ rw e refl
    | no n ↦ rw (if_neg (text_discrete c (32 ∷ [])) n true false) refl
  ]

  pieces_typed :
      (cs : List (List ℕ)) (ks : List Key) (st : Step) (chosen input : Text)
      → type_all env (line_keys cs ks) (entering st chosen input, s)
        ≡ type_all env (Key.enter ∷ ks) (entering st chosen (input ++ utf8 (all_runes cs)), s)
  unfolding line_keys all_runes type_all utf8
  pieces_typed [] ks st chosen input =
      ap (λ t. type_all env (Key.enter ∷ ks) (entering st chosen t, s)) (sym (append-nil input))
  pieces_typed (c ∷ cs) ks st chosen input =
      ap (type_all env (line_keys cs ks)) (piece_typed c st chosen input)
      ∙ (pieces_typed cs ks st chosen (input ++ utf8 c)
          ∙ ap (λ t. type_all env (Key.enter ∷ ks) (entering st chosen t, s))
              (append_assoc input (utf8 c) (utf8 (all_runes cs))
                ∙ ap (λ t. input ++ t) (sym (utf8-append c (all_runes cs)))))

  confirmed :
      (p h : Text)
      → env.hash p ≡ hashed h
      → update env Key.enter (entering Step.confirm p p) s
        ≡ stored env (entering Step.confirm p p) (set_password target h s)
  unfolding update press submit_at finalise finalise_with new_model
  confirmed p h f = rw (same_self p, f) refl

  chosen_lem :
      (p : Text)
      → validate_password p ≡ none
      → update env Key.enter (entering Step.new [] p) s ≡ (entering Step.confirm p [], s)
  unfolding update press submit_at submit_new new_model
  chosen_lem p e = rw e refl

  typed_twice :
      (cs ds : List (List ℕ)) (h : Text)
      → all_runes ds ≡ all_runes cs
      → validate_password (utf8 (all_runes cs)) ≡ none
      → env.hash (utf8 (all_runes cs)) ≡ hashed h
      → type_all env (line_keys cs (line_keys ds [])) (entering Step.new [] [], s)
        ≡ stored env
            (entering Step.confirm (utf8 (all_runes cs)) (utf8 (all_runes cs)))
            (set_password target h s)
  unfolding type_all
  typed_twice cs ds h again e f =
      pieces_typed cs (line_keys ds []) Step.new [] []
      ∙ (ap (type_all env (line_keys ds [])) (chosen_lem (utf8 (all_runes cs)) e)
          ∙ (pieces_typed ds [] Step.confirm (utf8 (all_runes cs)) []
              ∙ (ap
                    (λ rs.
                      update env Key.enter (entering Step.confirm (utf8 (all_runes cs)) (utf8 rs))
                        s)
                    again
                  ∙ confirmed (utf8 (all_runes cs)) h f)))

stored_done :
    (env : Env) (m : Model) (r : Result)
    → ((stored env m r).0.is_done ≡ true) × ((stored env m r).1 ≡ r.0)
unfolding stored finish
stored_done env m (s, none) = (refl, refl)
stored_done env m (s, some e) = (refl, refl)

-- Where the current password is not asked for, a password that passes the check of passwords and can be
-- hashed, typed with Enter after it and then typed again with Enter after it, each time by any keys that
-- together bring its runes, a blank alone as the blank key, ends the dialogue, and the store becomes what
-- storing the hash for the target makes of it.
pub typed_twice-ends :
    (env : Env) (actor target : Text) (cancelable : Bool) (s : Store) (cs ds : List (List ℕ))
    (h : Text)
    → all_runes ds ≡ all_runes cs
    → validate_password (utf8 (all_runes cs)) ≡ none
    → env.hash (utf8 (all_runes cs)) ≡ hashed h
    → let r =
        type_all env
          (line_keys cs (line_keys ds []))
          (new_model actor target false cancelable, s) in
      (r.0.is_done ≡ true) × (r.1 ≡ (set_password target h s).0)
unfolding new_model
typed_twice-ends env actor target cancelable s cs ds h again e f =
    rw (typed_twice env actor target cancelable s cs ds h again e f)
      (stored_done env _ (set_password target h s))
