-- ===== src/Lobby/Trie.antt =====
-- internal/lobby/abbrev.go: the trie of the command words. A map is a list of entries in some order.
use retro_vax_bbs.Prelude.{
  Text, Bool, false, not, ◌||◌, Option, none, some, List, [], ◌∷◌, if◌then◌else◌,
}
use retro_vax_bbs.Phone.Calls.State.{same}

-- A node: the command that ends there, whether it takes an argument, whether a user may see the subtree,
-- and the children.
mutual
  pub data Node : Type 0 where
    node : Option Text → Bool → Bool → Children → Node

  pub data Children : Type 0 where
    leaf : Children
    child : Text → Node → Children → Children

abbrev pub children : Node → Children
children (node c a v cs) = cs

abbrev pub takes_arg : Node → Bool
takes_arg (node c a v cs) = a

abbrev pub user_visible : Node → Bool
user_visible (node c a v cs) = v

abbrev pub canonical : Node → Option Text
canonical (node c a v cs) = c

abbrev pub empty_node : Node
empty_node = node none false false leaf

-- n.children[tok]
unfoldable pub find_child : Text → Children → Option Node
find_child tok leaf = none
find_child tok (child t n cs) = let rest = find_child tok cs in if same t tok then some n else rest

unfoldable pub put_child : Text → Node → Children → Children
put_child tok n leaf = child tok n leaf
put_child tok n (child t m cs) =
    let rest = put_child tok n cs in if same t tok then child t n cs else child t m rest

abbrev pub child_or_new : Option Node → Node
child_or_new none = empty_node
child_or_new (some n) = n

-- The function add of abbrevTrie, by the words that are left; `up` is the whole command.
unfoldable pub add : Text → Bool → List Text → Node → Node
unfolding find_child put_child
add up arg [] (node c a v cs) = node (some up) (a || arg) v cs
add up arg (tok ∷ toks) (node c a v cs) =
    node c a v (put_child tok (add up arg toks (child_or_new (find_child tok cs))) cs)

abbrev pub shown : (Text → Bool) → Option Text → Bool
shown admin_only none = false
shown admin_only (some c) = not (admin_only c)

-- The loop of computeUserVisible over the children, once they are computed: whether one is visible.
unfoldable pub any_visible : Children → Bool
any_visible leaf = false
any_visible (child t n cs) = user_visible n || any_visible cs

-- computeUserVisible
unfoldable mutual
  unfolding any_visible

  pub compute_user_visible : (Text → Bool) → Node → Node
  compute_user_visible admin_only (node c a v cs) =
      node c a (shown admin_only c || any_visible (compute_children admin_only cs))
        (compute_children admin_only cs)

  pub compute_children : (Text → Bool) → Children → Children
  compute_children admin_only leaf = leaf
  compute_children admin_only (child t n cs) =
      child t (compute_user_visible admin_only n) (compute_children admin_only cs)
