-- ===== src/Lobby/Roles.antt =====
-- internal/lobby/abbrev.go: computeUserVisible, and the commands that it is computed from.
use retro_vax_bbs.Prelude.{
  ◌≡◌, refl, sym, ap, ◌∙◌, Text, Bool, true, false, not, ◌||◌, Option, none, some, List, [], ◌∷◌,
  ◌++◌, any, if◌then◌else◌, Bool-cases, inl, inr,
}
use retro_vax_bbs.Phone.Calls.State.{same}
use retro_vax_bbs.Lobby.Trie.{
  Node, node, Children, leaf, child, user_visible, find_child, shown, any_visible,
  compute_user_visible, compute_children,
}
use retro_vax_bbs.Lobby.Pruning.{prune, prune_node, prune_node-visible, Unique, UniqueBelow}

abbrev pub with_own : Option Text → List Text → List Text
with_own none cs = cs
with_own (some c) cs = c ∷ cs

-- The commands that end at a node or below it.
unfoldable mutual
  pub commands_of : Node → List Text
  commands_of (node c a v cs) = with_own c (commands_in cs)

  pub commands_in : Children → List Text
  commands_in leaf = []
  commands_in (child t n cs) = commands_of n ++ commands_in cs

-- One of some commands is not for admins only.
abbrev pub open_to_all : (Text → Bool) → List Text → Bool
open_to_all admin_only cs = any (λ c. not (admin_only c)) cs

-- The trie without the words that lead to admins' commands only.
unfoldable mutual
  unfolding commands_of

  pub without_node : (Text → Bool) → Node → Node
  without_node admin_only (node c a v cs) = node c a v (without admin_only cs)

  pub without : (Text → Bool) → Children → Children
  without admin_only leaf = leaf
  without admin_only (child t n cs) =
      if open_to_all admin_only (commands_of n)
      then child t (without_node admin_only n) (without admin_only cs)
      else without admin_only cs

or_assoc : (a b c : Bool) → ((a || b) || c) ≡ (a || (b || c))
or_assoc true b c = refl
or_assoc false b c = refl

open_to_all-append :
    (admin_only : Text → Bool) (xs ys : List Text)
    → open_to_all admin_only (xs ++ ys) ≡ (open_to_all admin_only xs || open_to_all admin_only ys)
open_to_all-append admin_only [] ys = refl
open_to_all-append admin_only (x ∷ xs) ys =
    ap (λ b. not (admin_only x) || b) (open_to_all-append admin_only xs ys)
    ∙ sym (or_assoc (not (admin_only x)) (open_to_all admin_only xs) (open_to_all admin_only ys))

own_shown :
    (admin_only : Text → Bool) (c : Option Text) (cs : List Text)
    → (shown admin_only c || open_to_all admin_only cs) ≡ open_to_all admin_only (with_own c cs)
own_shown admin_only none cs = refl
own_shown admin_only (some c) cs = refl

-- A node is visible exactly when one of the commands at it or below it is not for admins only.
mutual
  unfolding compute_user_visible any_visible commands_of

  pub compute_user_visible_lem :
      (admin_only : Text → Bool) (n : Node)
      → user_visible (compute_user_visible admin_only n) ≡ open_to_all admin_only (commands_of n)
  compute_user_visible_lem admin_only (node c a v cs) =
      ap (λ b. shown admin_only c || b) (any_visible_lem admin_only cs)
      ∙ own_shown admin_only c (commands_in cs)

  pub any_visible_lem :
      (admin_only : Text → Bool) (cs : Children)
      → any_visible (compute_children admin_only cs) ≡ open_to_all admin_only (commands_in cs)
  any_visible_lem admin_only leaf = refl
  any_visible_lem admin_only (child t n cs) =
      rw (compute_user_visible_lem admin_only n, any_visible_lem admin_only cs)
        (sym (open_to_all-append admin_only (commands_of n) (commands_in cs)))

any_visible-prune : (cs : Children) → any_visible (prune cs) ≡ any_visible cs
unfolding any_visible prune
any_visible-prune leaf = refl
any_visible-prune (child t n cs) = elim (Bool-cases (user_visible n)) [
  | inl e ↦ rw (e, prune_node-visible n ∙ e) refl
  | inr e ↦ rw e (any_visible-prune cs)
]

-- Taking the words away before computeUserVisible is pruning after it.
mutual
  unfolding compute_user_visible prune without

  compute_node-without :
      (admin_only : Text → Bool) (n : Node)
      → compute_user_visible admin_only (without_node admin_only n)
        ≡ prune_node (compute_user_visible admin_only n)
  compute_node-without admin_only (node c a v cs) =
      rw (compute-without admin_only cs, any_visible-prune (compute_children admin_only cs)) refl

  pub compute-without :
      (admin_only : Text → Bool) (cs : Children)
      → compute_children admin_only (without admin_only cs) ≡ prune (compute_children admin_only cs)
  compute-without admin_only leaf = refl
  compute-without admin_only (child t n cs) =
      elim (Bool-cases (open_to_all admin_only (commands_of n))) [
        | inl e ↦
            rw (e, compute_user_visible_lem admin_only n ∙ e)
              (rw (compute_node-without admin_only n, compute-without admin_only cs) refl)
        | inr e ↦ rw (e, compute_user_visible_lem admin_only n ∙ e) (compute-without admin_only cs)
      ]

find_child-compute :
    (admin_only : Text → Bool) (tok : Text) (cs : Children)
    → find_child tok cs ≡ none
    → find_child tok (compute_children admin_only cs) ≡ none
unfolding find_child compute_user_visible
find_child-compute admin_only tok leaf e = refl
find_child-compute admin_only tok (child t n cs) e = elim (Bool-cases (same t tok)) [
  | inl k ↦ absurd (let h : some n ≡ none = rw k at e in cc)
  | inr k ↦ rw k (find_child-compute admin_only tok cs (rw k at e))
]

mutual
  unfolding Unique compute_user_visible

  compute-UniqueBelow :
      (admin_only : Text → Bool) (n : Node)
      → UniqueBelow n
      → UniqueBelow (compute_user_visible admin_only n)
  compute-UniqueBelow admin_only (node c a v cs) u = compute-Unique admin_only cs u

  pub compute-Unique :
      (admin_only : Text → Bool) (cs : Children)
      → Unique cs
      → Unique (compute_children admin_only cs)
  compute-Unique admin_only leaf u = tt
  compute-Unique admin_only (child t n cs) u = (
    find_child-compute admin_only t cs u.0,
    compute-UniqueBelow admin_only n u.1,
    compute-Unique admin_only cs u.2,
  )
