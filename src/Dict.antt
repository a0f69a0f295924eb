-- ===== src/Dict.antt =====
-- Go's map[string]V as an association list that holds a key once: `put` drops the key's old entry.
-- The order of the entries is one of the orders in which Go may range over the map.
use retro_vax_bbs.Prelude.{
  Text, text_discrete, ◌≡◌, refl, ◌≢◌, Option, none, some, List, [], ◌∷◌, arith, ite,
}

abbrev pub Dict {ℓ} : Type ℓ → Type ℓ
Dict V = List (Text × V)

module _ {ℓ} {V : Type ℓ} where
  unfoldable pub find : Text → Dict V → Option V
  find k [] = none
  find k ((j, v) ∷ m) = ite (text_discrete j k) (some v) (find k m)

  unfoldable pub delete : Text → Dict V → Dict V
  delete k [] = []
  delete k ((j, v) ∷ m) = let rest = delete k m in ite (text_discrete j k) rest ((j, v) ∷ rest)

  abbrev pub put : Text → V → Dict V → Dict V
  put k v m = (k, v) ∷ delete k m

  pub find-delete_self : (k : Text) (m : Dict V) → find k (delete k m) ≡ none
  unfolding find delete
  find-delete_self k [] = refl
  find-delete_self k ((i, v) ∷ m) = ground (arith, find-delete_self k m)

  pub find-delete_ne : (k j : Text) (m : Dict V) → k ≢ j → find j (delete k m) ≡ find j m
  unfolding find delete
  find-delete_ne k j [] h = refl
  find-delete_ne k j ((i, v) ∷ m) h = ground (arith, find-delete_ne k j m)

  pub find-put_self : (k : Text) (v : V) (m : Dict V) → find k (put k v m) ≡ some v
  unfolding find
  find-put_self k v m = ground arith

  pub find-put_ne : (k j : Text) (v : V) (m : Dict V) → k ≢ j → find j (put k v m) ≡ find j m
  unfolding find
  find-put_ne k j v m h = ground (arith, find-delete_ne k j m)

  pub find-put :
      (k j : Text) (v : V) (m : Dict V)
      → find j (put k v m) ≡ ite (text_discrete k j) (some v) (find j m)
  unfolding find
  find-put k j v m = ground (arith, find-delete_ne k j m)

  pub find-delete :
      (k j : Text) (m : Dict V) → find j (delete k m) ≡ ite (text_discrete k j) none (find j m)
  find-delete k j m = ground (arith, find-delete_ne k j m, find-delete_self k m)

  abbrev pub keys : Dict V → List Text
  keys [] = []
  keys ((k, v) ∷ m) = k ∷ keys m

  -- A map with no entry finds nothing, and one with an entry finds something.
  pub find_empty : (m : Dict V) → ((k : Text) → find k m ≡ none) → m ≡ []
  unfolding find
  find_empty [] h = refl
  find_empty ((j, v) ∷ m) h = ground (arith, h j)

pub ruleset dict_laws = (find-put, find-delete)
