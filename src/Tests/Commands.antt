-- ===== src/Tests/Commands.antt =====
-- The theorem on internal/lobby/abbrev.go at a concrete input.
use retro_vax_bbs.Prelude.{◌≡◌, refl, Text, Bool, codes, false, [], ◌∷◌, text_discrete}
use retro_vax_bbs.Phone.Calls.State.{same}
use retro_vax_bbs.Lobby.Trie.{
  Node, children, empty_node, add, compute_children, find_child, put_child,
}
use retro_vax_bbs.Lobby.Abbrev.{Words, resolve_abbrev}
use retro_vax_bbs.Lobby.Pruning.{Unique}
use retro_vax_bbs.Lobby.Roles.{without}
use retro_vax_bbs.Lobby.Scope.{resolve_abbrev-prune}

-- A line is one word, in capitals.
abbrev plain_words : Words
plain_words = record {
  fields = λ t. t ∷ [];
  upper = λ t. t;
  trim_space = λ t. t;
  sorted = λ ts. ts;
  quoted = λ t. t;
}

-- LIST is for admins, and LOGOUT for everybody.
abbrev for_admins : Text → Bool
for_admins = same (codes "LIST")

abbrev small_trie : Node
small_trie =
    add (codes "LIST") false (codes "LIST" ∷ [])
      (add (codes "LOGOUT") false (codes "LOGOUT" ∷ []) empty_node)

small_trie-Unique : Unique (children small_trie)
unfolding Unique add put_child find_child text_discrete
small_trie-Unique = (refl, tt, (refl, tt, tt))

resolve_abbrev-prune_example :
    resolve_abbrev plain_words
      (codes "user")
      (codes "L")
      (compute_children for_admins (children small_trie))
    ≡ resolve_abbrev plain_words
        (codes "admin")
        (codes "L")
        (compute_children for_admins (without for_admins (children small_trie)))
unfolding text_discrete
resolve_abbrev-prune_example =
    resolve_abbrev-prune plain_words for_admins (codes "user") (codes "L") (children small_trie)
      refl small_trie-Unique
