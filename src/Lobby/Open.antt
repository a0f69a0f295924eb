-- ===== src/Lobby/Open.antt =====
-- internal/lobby/abbrev.go: a trie of which a user may see all.
use retro_vax_bbs.Prelude.{
  ◌≡◌, refl, ap, Text, Bool, true, false, List, [], ◌∷◌, ◌++◌, Bool-cases, inl, inr,
}
use retro_vax_bbs.Phone.Calls.State.{same}
use retro_vax_bbs.Lobby.Trie.{Node, node, Children, leaf, child, children, user_visible, find_child}
use retro_vax_bbs.Lobby.Abbrev.{
  Words, candidates, Match, one, nothing, several, match_word, Next, stops, doubts, goes, misses,
  to_child, next_at, resolve,
}
use retro_vax_bbs.Lobby.Pruning.{prune, prune_node}

unfoldable mutual
  pub OpenNode : Node → Type 0
  OpenNode (node c a v cs) = (v ≡ true) × Open cs

  pub Open : Children → Type 0
  Open leaf = Unit
  Open (child t n cs) = OpenNode n × Open cs

mutual
  unfolding prune Open

  prune_node-Open : (n : Node) → user_visible n ≡ true → OpenNode (prune_node n)
  prune_node-Open (node c a v cs) e = (e, prune-Open cs)

  pub prune-Open : (cs : Children) → Open (prune cs)
  prune-Open leaf = tt
  prune-Open (child t n cs) = elim (Bool-cases (user_visible n)) [
    | inl e ↦ rw e (prune_node-Open n e, prune-Open cs)
    | inr e ↦ rw e (prune-Open cs)
  ]

candidates-Open : (cs : Children) → Open cs → candidates false cs ≡ candidates true cs
unfolding candidates Open
candidates-Open leaf o = refl
candidates-Open (child t (node c a v below) cs) o =
    rw o.0.0 (ap (λ ts. t ∷ ts) (candidates-Open cs o.1))

-- What lies below the child that a word leads to.
abbrev pub OpenBelow : Next → Type 0
OpenBelow stops = Unit
OpenBelow (doubts names) = Unit
OpenBelow misses = Unit
OpenBelow (goes m n) = Open (children n)

find_child-Open : (m : Text) (cs : Children) → Open cs → OpenBelow (to_child m (find_child m cs))
unfolding find_child Open
find_child-Open m leaf o = tt
find_child-Open m (child t (node c a v below) cs) o = elim (Bool-cases (same t m)) [
  | inl k ↦ rw k o.0.1
  | inr k ↦ rw k (find_child-Open m cs o.1)
]

next_at-Open : (x : Match) (cs : Children) → Open cs → OpenBelow (next_at x cs)
unfolding next_at
next_at-Open nothing cs o = tt
next_at-Open (several pfx) cs o = tt
next_at-Open (one m) cs o = find_child-Open m cs o

module _ (words : Words) (typed : Text) (rest : List Text) where
  abbrev there : Bool → Children → Next
  there admin cs = next_at (match_word (words.upper typed) (candidates admin cs)) cs

  role_step :
      (resolved : List Text) (cs : Children) (x : Next)
      → there true cs ≡ x
      → there false cs ≡ x
      → OpenBelow x
      → ((further : List Text) (below : Children)
          → Open below
          → resolve words false further below rest ≡ resolve words true further below rest)
      → resolve words false resolved cs (typed ∷ rest)
        ≡ resolve words true resolved cs (typed ∷ rest)
  unfolding resolve
  role_step resolved cs stops e f o ih = rw (f, e, resolve) refl
  role_step resolved cs (doubts names) e f o ih = rw (f, e, resolve) refl
  role_step resolved cs misses e f o ih = rw (f, e, resolve) refl
  role_step resolved cs (goes m n) e f o ih =
      rw (f, e, resolve) (rw (ih (resolved ++ m ∷ []) (children n) o) refl)

-- There the role makes no difference.
pub resolve-Open :
    (words : Words) (resolved : List Text) (cs : Children) (tokens : List Text)
    → Open cs
    → resolve words false resolved cs tokens ≡ resolve words true resolved cs tokens
unfolding resolve
resolve-Open words resolved cs [] o = refl
resolve-Open words resolved cs (typed ∷ rest) o =
    role_step words typed rest resolved cs (there words typed rest true cs) refl
      (ap (λ ts. next_at (match_word (words.upper typed) ts) cs) (candidates-Open cs o))
      (next_at-Open (match_word (words.upper typed) (candidates true cs)) cs o)
      (λ further below p. resolve-Open words further below rest p)
