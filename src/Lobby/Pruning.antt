-- ===== src/Lobby/Pruning.antt =====
-- internal/lobby/abbrev.go: the trie without what a role may not see.
use retro_vax_bbs.Prelude.{
  ◌≡◌, refl, sym, ap, ◌∙◌, Text, text_discrete, Bool, true, false, none, some, List, [], ◌∷◌, any,
  if◌then◌else◌, Bool-cases, inl, inr, if_pos, subst,
}
use mathlib.Core.Option.{some-injective}
use retro_vax_bbs.Phone.Calls.State.{same}
use retro_vax_bbs.Phone.Calls.Engaged.{same_path}
use retro_vax_bbs.Phone.Screen.Commands.{has_prefix}
use retro_vax_bbs.Lobby.Trie.{
  Node, node, Children, leaf, child, children, takes_arg, user_visible, find_child,
}
use retro_vax_bbs.Lobby.Abbrev.{
  candidates, prefixed, pick, match_word, Next, stops, doubts, goes, misses, to_child, next_at,
}

-- The trie without the subtrees that a user may not see.
unfoldable mutual
  pub prune_node : Node → Node
  prune_node (node c a v cs) = node c a v (prune cs)

  pub prune : Children → Children
  prune leaf = leaf
  prune (child t n cs) = if user_visible n then child t (prune_node n) (prune cs) else prune cs

-- A map has one entry for each word.
unfoldable mutual
  unfolding find_child

  pub UniqueBelow : Node → Type 0
  UniqueBelow (node c a v cs) = Unique cs

  pub Unique : Children → Type 0
  Unique leaf = Unit
  Unique (child t n cs) = (find_child t cs ≡ none) × UniqueBelow n × Unique cs

pub prune_node-visible : (n : Node) → user_visible (prune_node n) ≡ user_visible n
unfolding prune_node
prune_node-visible (node c a v cs) = refl

pub prune_node-takes_arg : (n : Node) → takes_arg (prune_node n) ≡ takes_arg n
unfolding prune_node
prune_node-takes_arg (node c a v cs) = refl

pub prune_node-children : (n : Node) → children (prune_node n) ≡ prune (children n)
unfolding prune_node
prune_node-children (node c a v cs) = refl

candidates-prune : (cs : Children) → candidates false (prune cs) ≡ candidates false cs
unfolding candidates prune_node
candidates-prune leaf = refl
candidates-prune (child t n cs) = elim (Bool-cases (user_visible n)) [
  | inl e ↦ rw (e, prune_node-visible n ∙ e) (ap (λ ts. t ∷ ts) (candidates-prune cs))
  | inr e ↦ rw e (candidates-prune cs)
]

no_some : {n : Node} → some n ≡ none → ⊥
no_some e = cc

apart : true ≡ false → ⊥
apart e = cc

unfoldable pub pruned : Next → Next
pruned stops = stops
pruned (doubts names) = doubts names
pruned misses = misses
pruned (goes m n) = goes m (prune_node n)

find_child-hit :
    (m t : Text) (n : Node) (cs : Children) → same t m ≡ true → find_child m (child t n cs) ≡ some n
unfolding find_child
find_child-hit m t n cs e = rw e refl

find_child-skip :
    (m t : Text) (n : Node) (cs : Children)
    → same t m ≡ false
    → find_child m (child t n cs) ≡ find_child m cs
unfolding find_child
find_child-skip m t n cs e = rw e refl

abbrev among : Text → List Text → Bool
among m ts = any (λ c. same c m) ts

candidates_other :
    (m t : Text) (n : Node) (cs : Children)
    → same t m ≡ false
    → among m (candidates false (child t n cs)) ≡ among m (candidates false cs)
unfolding candidates
candidates_other m t n cs k = elim (Bool-cases (user_visible n)) [
  | inl e ↦ rw (e, k) refl
  | inr e ↦ rw e refl
]

candidates_hidden :
    (m t : Text) (n : Node) (cs : Children)
    → user_visible n ≡ false
    → among m (candidates false (child t n cs)) ≡ among m (candidates false cs)
unfolding candidates
candidates_hidden m t n cs e = rw e refl

-- A candidate is among the children.
candidate_there :
    (m : Text) (cs : Children) → among m (candidates false cs) ≡ true → find_child m cs ≡ none → ⊥
unfolding candidates
candidate_there m leaf h e = absurd cc
candidate_there m (child t n cs) h e = elim (Bool-cases (same t m)) [
  | inl k ↦ absurd (no_some (sym (find_child-hit m t n cs k) ∙ e))
  | inr k ↦
      candidate_there m cs (sym (candidates_other m t n cs k) ∙ h)
        (sym (find_child-skip m t n cs k) ∙ e)
]

-- A child of a candidate's name is the one that is left, pruned.
find_child-prune :
    (m : Text) (cs : Children)
    → Unique cs
    → among m (candidates false cs) ≡ true
    → to_child m (find_child m (prune cs)) ≡ pruned (to_child m (find_child m cs))
unfolding candidates prune Unique pruned
find_child-prune m leaf u h = absurd cc
find_child-prune m (child t n cs) u h = elim (Bool-cases (same t m)) [
  | inl k ↦ elim (Bool-cases (user_visible n)) [
    | inl v ↦ rw (v, find_child-hit m t n cs k, find_child-hit m t (prune_node n) (prune cs) k) refl
    | inr v ↦ absurd (
        candidate_there m cs (sym (candidates_hidden m t n cs v) ∙ h)
          (subst (λ x. find_child x cs ≡ none) (same_path t m k) u.0))
  ]
  | inr k ↦ elim (Bool-cases (user_visible n)) [
    | inl v ↦
        rw (v, find_child-skip m t n cs k, find_child-skip m t (prune_node n) (prune cs) k)
          (find_child-prune m cs u.2 (sym (candidates_other m t n cs k) ∙ h))
    | inr v ↦
        rw (v, find_child-skip m t n cs k)
          (find_child-prune m cs u.2 (sym (candidates_other m t n cs k) ∙ h))
  ]
]

prefixed_other :
    (up m t : Text) (ts : List Text)
    → same t m ≡ false
    → among m (prefixed up (t ∷ ts)) ≡ among m (prefixed up ts)
unfolding prefixed
prefixed_other up m t ts k = elim (Bool-cases (has_prefix t up)) [
  | inl e ↦ rw (e, k) refl
  | inr e ↦ rw e refl
]

-- A word that matches one candidate gives a candidate.
prefixed-among :
    (up m : Text) (ts : List Text) → among m (prefixed up ts) ≡ true → among m ts ≡ true
unfolding prefixed
prefixed-among up m [] h = absurd cc
prefixed-among up m (t ∷ ts) h = elim (Bool-cases (same t m)) [
  | inl k ↦ rw k refl
  | inr k ↦ rw k (prefixed-among up m ts (sym (prefixed_other up m t ts k) ∙ h))
]

pick-prune :
    (cs : Children) (ts : List Text)
    → Unique cs
    → ((m : Text) → among m ts ≡ true → among m (candidates false cs) ≡ true)
    → next_at (pick ts) (prune cs) ≡ pruned (next_at (pick ts) cs)
unfolding next_at pruned
pick-prune cs [] u h = refl
pick-prune cs (c ∷ []) u h =
    find_child-prune c cs u (h c (rw (if_pos (text_discrete c c) refl true false) refl))
pick-prune cs (c ∷ d ∷ ts) u h = refl

pub next_at-prune :
    (up : Text) (cs : Children)
    → Unique cs
    → next_at (match_word up (candidates false (prune cs))) (prune cs)
      ≡ pruned (next_at (match_word up (candidates false cs)) cs)
unfolding next_at match_word pruned
next_at-prune up cs u =
    rw (candidates-prune cs) (elim (Bool-cases (among up (candidates false cs))) [
      | inl k ↦ rw (k) (find_child-prune up cs u k)
      | inr k ↦ rw (k) (
          pick-prune cs (prefixed up (candidates false cs)) u
            (λ m h. prefixed-among up m (candidates false cs) h))
    ])

-- What lies below a child is a map as well.
pub find_child-Unique :
    (m : Text) (cs : Children) (n : Node)
    → Unique cs
    → find_child m cs ≡ some n
    → Unique (children n)
unfolding find_child Unique
find_child-Unique m leaf n u e = absurd cc
find_child-Unique m (child t (node c a v below) cs) n u e = elim (Bool-cases (same t m)) [
  | inl k ↦
      subst (λ x. Unique (children x))
        (some-injective (node c a v below) n (sym (find_child-hit m t (node c a v below) cs k) ∙ e))
        u.1
  | inr k ↦ find_child-Unique m cs n u.2 (sym (find_child-skip m t (node c a v below) cs k) ∙ e)
]
