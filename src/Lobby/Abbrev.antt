-- ===== src/Lobby/Abbrev.antt =====
-- internal/lobby/abbrev.go: resolveAbbrev. Splitting into words, upper case, trimming, sorting and quoting
-- are parameters.
use retro_vax_bbs.Prelude.{
  Text, codes, Bool, ◌||◌, Option, none, some, List, [], ◌∷◌, ◌++◌, any, map, if◌then◌else◌,
}
use retro_vax_bbs.Phone.Calls.State.{same}
use retro_vax_bbs.Phone.Screen.Model.{utf8}
use retro_vax_bbs.Phone.Screen.Commands.{has_prefix}
use retro_vax_bbs.Lobby.Trie.{
  Node, Children, leaf, child, children, takes_arg, user_visible, find_child,
}

pub record Words : Type 0 where
  pub fields : Text → List Text
  pub upper : Text → Text
  pub trim_space : Text → Text
  pub sorted : List Text → List Text
  pub quoted : Text → Text

-- strings.Join
unfoldable pub join : Text → List Text → Text
join sep [] = []
join sep (t ∷ []) = t
join sep (t ∷ u ∷ ts) = t ++ (sep ++ join sep (u ∷ ts))

-- The continuations at a node that a role may see.
unfoldable pub candidates : Bool → Children → List Text
candidates admin leaf = []
candidates admin (child t n cs) =
    let rest = candidates admin cs in if admin || user_visible n then t ∷ rest else rest

-- The candidates that a word is a prefix of.
unfoldable pub prefixed : Text → List Text → List Text
prefixed up [] = []
prefixed up (c ∷ cs) = let rest = prefixed up cs in if has_prefix c up then c ∷ rest else rest

-- What a word matches: one candidate, none, or several.
pub data Match : Type 0 where
  one : Text → Match
  nothing : Match
  several : List Text → Match

abbrev pub pick : List Text → Match
pick [] = nothing
pick (c ∷ []) = one c
pick (c ∷ d ∷ cs) = several (c ∷ d ∷ cs)

-- An exact match wins over the prefixes.
unfoldable pub match_word : Text → List Text → Match
unfolding prefixed
match_word up cands = if any (λ c. same c up) cands then one up else pick (prefixed up cands)

-- How the loop ends: the words resolved and those left, an ambiguous word, or a panic.
pub data Resolution : Type 0 where
  resolves : List Text → List Text → Resolution
  ambiguous : Text → List Text → Resolution
  panics : Resolution

-- What a word leads to at a node: the loop stops, the word is ambiguous, it goes on at a child, or the
-- child is missing, which panics.
pub data Next : Type 0 where
  stops : Next
  doubts : List Text → Next
  goes : Text → Node → Next
  misses : Next

abbrev pub to_child : Text → Option Node → Next
to_child m none = misses
to_child m (some n) = goes m n

unfoldable pub next_at : Match → Children → Next
unfolding find_child
next_at nothing cs = stops
next_at (several pfx) cs = doubts pfx
next_at (one m) cs = to_child m (find_child m cs)

-- The loop of resolveAbbrev; it ends at a command that takes an argument.
unfoldable pub resolve : Words → Bool → List Text → Children → List Text → Resolution
unfolding candidates match_word next_at
resolve words admin resolved cs [] = resolves resolved []
resolve words admin resolved cs (typed ∷ rest) =
    elim (next_at (match_word (words.upper typed) (candidates admin cs)) cs) [
      | stops ↦ resolves resolved (typed ∷ rest)
      | doubts pfx ↦ ambiguous typed (
          map (λ c. words.trim_space (join (codes " ") resolved ++ (codes " " ++ c)))
            (words.sorted pfx))
      | misses ↦ panics
      | goes m n ↦
          let further = resolve words admin (resolved ++ m ∷ []) (children n) rest in
          if takes_arg n then resolves (resolved ++ m ∷ []) rest else further
    ]

abbrev pub tail_of : List Text → Text
tail_of [] = []
tail_of (t ∷ ts) = codes " " ++ join (codes " ") (t ∷ ts)

abbrev pub ambiguity_message : Words → Text → List Text → Text
ambiguity_message words typed names =
    codes "Ambiguous command "
    ++ (words.quoted typed
        ++ (utf8 (codes " — did you mean: ")
            ++ (join (codes ", ") names ++ codes "? Type more of the command name.")))

-- The two results of resolveAbbrev; a panic is none.
unfoldable pub rendered : Words → Text → Resolution → Option (Text × Text)
unfolding join utf8
rendered words line panics = none
rendered words line (ambiguous typed names) = some ([], ambiguity_message words typed names)
rendered words line (resolves [] rest) = some (line, [])
rendered words line (resolves (t ∷ ts) rest) = some (join (codes " ") (t ∷ ts) ++ tail_of rest, [])

-- resolveAbbrev, for the trie with these children at its root.
unfoldable pub resolve_abbrev : Words → Text → Text → Children → Option (Text × Text)
unfolding resolve rendered
resolve_abbrev words role line root =
    rendered words line (resolve words (same role (codes "admin")) [] root (words.fields line))
