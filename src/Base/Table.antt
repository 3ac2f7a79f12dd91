-- ===== src/Base/Table.antt =====
-- Go's maps as association lists, one entry to a key.
use mathlib.Core.Path.{◌≡◌, refl}
use mathlib.Core.Option.{Option, none, some}
use mathlib.Core.List.{List, [], ◌∷◌}
use native.Mathlib.Omega.{arith}
use local_first_architecture.Base.Tests.{Comparable, ◌==◌, if◌then◌else◌, same_refl}
use local_first_architecture.Base.Lists.{All}

abbrev pub Table {ℓ κ} : Type ℓ → Type κ → Type (ℓ ⊔ κ)
Table K V = List (K × V)

module _ {ℓ κ} {K : Type ℓ} {V : Type κ} ⦃c : Comparable K⦄ where
  -- v, ok := m[key]
  unfoldable pub lookup : K → Table K V → Option V
  lookup key [] = none
  lookup key ((k, v) ∷ rest) = if k == key then some v else lookup key rest

  -- m[key], with the zero value `d` of a missing key
  abbrev pub lookup_or : V → K → Table K V → V
  lookup_or d key m = elim (lookup key m) [ none ↦ d | some v ↦ v ]

  -- delete(m, key)
  unfoldable pub delete : K → Table K V → Table K V
  delete key [] = []
  delete key ((k, v) ∷ rest) =
      let below = delete key rest in if k == key then below else (k, v) ∷ below

  -- m[key] = new
  unfoldable pub insert : K → V → Table K V → Table K V
  insert key new [] = (key, new) ∷ []
  insert key new ((k, v) ∷ rest) =
      if k == key then (key, new) ∷ rest else (k, v) ∷ insert key new rest

  pub lookup-delete :
      (key k : K) (m : Table K V)
      → lookup k (delete key m) ≡ (if key == k then none else lookup k m)
  unfolding lookup delete
  lookup-delete key k [] = ground arith
  lookup-delete key k ((i, w) ∷ rest) =
      ground (arith, lookup-delete key k rest, c.same_iff i key, c.same_iff i k, c.same_iff key k)

  pub lookup-insert :
      (key k : K) (new : V) (m : Table K V)
      → lookup k (insert key new m) ≡ (if key == k then some new else lookup k m)
  unfolding lookup insert
  lookup-insert key k new [] = ground (arith, c.same_iff k key, c.same_iff key k)
  lookup-insert key k new ((i, w) ∷ rest) = ground (
    arith,
    lookup-insert key k new rest,
    c.same_iff i key,
    c.same_iff i k,
    c.same_iff key k,
    c.same_iff k key,
  )

  -- No key stands twice.
  abbrev pub IsMap : Table K V → Type κ
  IsMap [] = Unit
  IsMap ((k, v) ∷ m) = (lookup k m ≡ none) × IsMap m

  pub insert-IsMap : (k : K) (v : V) (m : Table K V) → IsMap m → IsMap (insert k v m)
  unfolding lookup insert
  insert-IsMap k v [] h = (refl, tt)
  insert-IsMap k v ((j, w) ∷ m) h =
      ground (arith, insert-IsMap k v m h.1, lookup-insert k j v m, c.same_iff j k, c.same_iff k j)

  pub delete-IsMap : (k : K) (m : Table K V) → IsMap m → IsMap (delete k m)
  unfolding lookup delete
  delete-IsMap k [] h = tt
  delete-IsMap k ((j, w) ∷ m) h =
      ground (arith, delete-IsMap k m h.1, lookup-delete k j m, c.same_iff k j, c.same_iff j k)

  entry-under :
      (k : K) (v : V) (m : Table K V)
      → lookup k m ≡ none
      → (xs : Table K V) → All (λ (e : K × V). lookup e.0 m ≡ some e.1) xs
      → All (λ (e : K × V). lookup e.0 ((k, v) ∷ m) ≡ some e.1) xs
  unfolding lookup
  entry-under k v m fresh [] h = tt
  entry-under k v m fresh ((j, w) ∷ xs) h =
      (ground (arith, h.0, fresh, c.same_iff k j), entry-under k v m fresh xs h.1)

  -- In a map, every entry is found under its key.
  pub IsMap-lookup : (m : Table K V) → IsMap m → All (λ (e : K × V). lookup e.0 m ≡ some e.1) m
  unfolding lookup
  IsMap-lookup [] h = tt
  IsMap-lookup ((k, v) ∷ m) h =
      (ground (arith, same_refl k), entry-under k v m h.0 m (IsMap-lookup m h.1))

pub ruleset table_laws = (lookup-insert, lookup-delete)
