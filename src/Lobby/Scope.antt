-- ===== src/Lobby/Scope.antt =====
-- internal/lobby/abbrev.go: what the role leaves of the resolution of a line.
use retro_vax_bbs.Prelude.{
  ◌≡◌, refl, sym, ap, ◌∙◌, text_discrete, Bool, Text, codes, false, Option, none, some, List, [],
  ◌∷◌, ◌++◌,
}
use retro_vax_bbs.Phone.Calls.State.{same}
use retro_vax_bbs.Lobby.Trie.{Node, Children, children, find_child, compute_children}
use retro_vax_bbs.Lobby.Abbrev.{
  Words, candidates, Match, one, nothing, several, match_word, Next, stops, doubts, goes, misses,
  to_child, next_at, resolve, rendered, resolve_abbrev,
}
use retro_vax_bbs.Lobby.Pruning.{
  prune, Unique, pruned, prune_node-takes_arg, prune_node-children, next_at-prune,
  find_child-Unique,
}
use retro_vax_bbs.Lobby.Open.{prune-Open, resolve-Open}
use retro_vax_bbs.Lobby.Roles.{without, compute-without, compute-Unique}

-- What lies below the child that a word leads to is a map.
abbrev Below : Next → Type 0
Below stops = Unit
Below (doubts names) = Unit
Below misses = Unit
Below (goes m n) = Unique (children n)

to_child-Below :
    (m : Text) (cs : Children)
    → Unique cs
    → (o : Option Node) → find_child m cs ≡ o
    → Below (to_child m o)
to_child-Below m cs u none e = tt
to_child-Below m cs u (some n) e = find_child-Unique m cs n u e

next_at-Below : (x : Match) (cs : Children) → Unique cs → Below (next_at x cs)
unfolding next_at
next_at-Below nothing cs u = tt
next_at-Below (several pfx) cs u = tt
next_at-Below (one m) cs u = to_child-Below m cs u (find_child m cs) refl

module _ (words : Words) (typed : Text) (rest : List Text) where
  abbrev here : Children → Next
  here cs = next_at (match_word (words.upper typed) (candidates false cs)) cs

  one_step :
      (resolved : List Text) (cs : Children) (x : Next)
      → here cs ≡ x
      → here (prune cs) ≡ pruned x
      → Below x
      → ((further : List Text) (below : Children)
          → Unique below
          → resolve words false further (prune below) rest ≡ resolve words false further below rest)
      → resolve words false resolved (prune cs) (typed ∷ rest)
        ≡ resolve words false resolved cs (typed ∷ rest)
  unfolding resolve pruned
  one_step resolved cs stops e f u ih = rw (f, e, resolve) refl
  one_step resolved cs (doubts names) e f u ih = rw (f, e, resolve) refl
  one_step resolved cs misses e f u ih = rw (f, e, resolve) refl
  one_step resolved cs (goes m n) e f u ih =
      rw (f, e, resolve)
        (rw (prune_node-takes_arg n, prune_node-children n, ih (resolved ++ m ∷ []) (children n) u)
          refl)

resolve-prune :
    (words : Words) (resolved : List Text) (cs : Children) (tokens : List Text)
    → Unique cs
    → resolve words false resolved (prune cs) tokens ≡ resolve words false resolved cs tokens
unfolding resolve
resolve-prune words resolved cs [] u = refl
resolve-prune words resolved cs (typed ∷ rest) u =
    one_step words typed rest resolved cs (here words typed rest cs) refl
      (next_at-prune (words.upper typed) cs u)
      (next_at-Below (match_word (words.upper typed) (candidates false cs)) cs u)
      (λ further below v. resolve-prune words further below rest v)

-- What a user gets is what an admin gets from the pruned trie.
pruned_lem :
    (words : Words) (role line : Text) (root : Children)
    → same role (codes "admin") ≡ false
    → Unique root
    → resolve_abbrev words role line root ≡ resolve_abbrev words (codes "admin") line (prune root)
unfolding resolve_abbrev text_discrete
pruned_lem words role line root e u = rw e (
    ap (rendered words line) (
      sym (resolve-prune words [] root (words.fields line) u)
      ∙ resolve-Open words [] (prune root) (words.fields line) (prune-Open root)))

-- In a trie whose maps have one entry for each word, once computeUserVisible has run, somebody who is no
-- admin gets for every line what an admin would get if the words under which every command is for admins
-- only had been taken out before: the same resolved line, or the same message with the same names in it. A
-- word that other commands go through stays, with what it says of arguments.
pub resolve_abbrev-prune :
    (words : Words) (admin_only : Text → Bool) (role line : Text) (root : Children)
    → same role (codes "admin") ≡ false
    → Unique root
    → resolve_abbrev words role line (compute_children admin_only root)
      ≡ resolve_abbrev words
          (codes "admin")
          line
          (compute_children admin_only (without admin_only root))
resolve_abbrev-prune words admin_only role line root e u =
    pruned_lem words role line (compute_children admin_only root) e
      (compute-Unique admin_only root u)
    ∙ ap (resolve_abbrev words (codes "admin") line) (sym (compute-without admin_only root))
