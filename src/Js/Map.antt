-- ===== src/Js/Map.antt =====
-- JavaScript's `Map<string, V>`: the entries in the order of their first insertion.
use nestjs_vibe_engine.Prelude.{
  String, ◌≡◌, refl, Option, none, some, List, [], ◌∷◌, arith, ◌==◌, eq_iff, if◌then◌else◌,
}

abbrev pub TextMap {ℓ} : Type ℓ → Type ℓ
TextMap V = List (String × V)

module _ {ℓ} {V : Type ℓ} where
  unfoldable pub get : TextMap V → String → Option V
  get [] k = none
  get ((j, v) ∷ m) k = if j == k then some v else get m k

  -- map.set(k, v): an entry that is there keeps its place.
  unfoldable pub set : TextMap V → String → V → TextMap V
  set [] k v = (k, v) ∷ []
  set ((j, w) ∷ m) k v = let rest = set m k v in if j == k then (j, v) ∷ m else (j, w) ∷ rest

  -- map.delete(k)
  unfoldable pub delete : TextMap V → String → TextMap V
  delete [] k = []
  delete ((j, w) ∷ m) k = let rest = delete m k in if j == k then rest else (j, w) ∷ rest

  pub get-set :
      (m : TextMap V) (k j : String) (v : V)
      → get (set m k v) j ≡ (if k == j then some v else get m j)
  unfolding get set
  get-set [] k j v = refl
  get-set ((i, w) ∷ m) k j v = ground (arith, get-set m k j v, eq_iff i k, eq_iff i j, eq_iff k j)

  pub get-delete :
      (m : TextMap V) (k j : String) → get (delete m k) j ≡ (if k == j then none else get m j)
  unfolding get delete
  get-delete [] k j = ground arith
  get-delete ((i, w) ∷ m) k j = ground (arith, get-delete m k j, eq_iff i k, eq_iff i j, eq_iff k j)

  -- Each key stands once.
  abbrev pub IsMap : TextMap V → Type ℓ
  IsMap [] = Unit
  IsMap ((k, v) ∷ m) = (get m k ≡ none) × IsMap m

  pub set-IsMap : (m : TextMap V) (k : String) (v : V) → IsMap m → IsMap (set m k v)
  unfolding get set
  set-IsMap [] k v d = (refl, tt)
  set-IsMap ((i, w) ∷ m) k v d =
      ground (arith, set-IsMap m k v, get-set m k i v, eq_iff i k, eq_iff k i)

  pub delete-IsMap : (m : TextMap V) (k : String) → IsMap m → IsMap (delete m k)
  unfolding get delete
  delete-IsMap [] k d = tt
  delete-IsMap ((i, w) ∷ m) k d =
      ground (arith, delete-IsMap m k, get-delete m k i, eq_iff i k, eq_iff k i)
