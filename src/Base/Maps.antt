-- ===== src/Base/Maps.antt =====
-- std::map and std::unordered_map with integer keys, as association lists.
use Prim.Native.Nat.{ℕ}
use mathlib.Core.Path.{◌≡◌, refl}
use mathlib.Core.Bool.{Bool, true, false}
use mathlib.Core.List.{List, [], ◌∷◌}
use mathlib.Core.Option.{Option, none, some}
use native.Mathlib.Omega.{arith}
use dasim.Base.Tests.{◌==◌, ltb, if◌then◌else◌}

abbrev pub Map {ℓ} : Type ℓ → Type ℓ
Map V = List (ℕ × V)

module _ {ℓ} {V : Type ℓ} where
  -- find
  abbrev pub lookup : ℕ → Map V → Option V
  lookup k [] = none
  lookup k ((j, v) ∷ m) = if j == k then some v else lookup k m

  -- m[k] = v
  abbrev pub insert : ℕ → V → Map V → Map V
  insert k v [] = (k, v) ∷ []
  insert k v ((j, w) ∷ m) = if j == k then (k, v) ∷ m else (j, w) ∷ insert k v m

  -- erase(k)
  abbrev pub remove : ℕ → Map V → Map V
  remove k [] = []
  remove k ((j, w) ∷ m) = let rest = remove k m in if j == k then rest else (j, w) ∷ rest

  abbrev pub contains : ℕ → Map V → Bool
  contains k m = elim (lookup k m) [ none ↦ false | some _ ↦ true ]

  -- emplace(k, v) keeps an entry that is there.
  abbrev pub emplace : ℕ → V → Map V → Map V
  emplace k v m = if contains k m then m else insert k v m

  pub lookup-insert :
      (k j : ℕ) (v : V) (m : Map V)
      → lookup j (insert k v m) ≡ (if k == j then some v else lookup j m)
  lookup-insert k j v [] = refl
  lookup-insert k j v ((i, w) ∷ m) = ground (arith, lookup-insert k j v m)

  pub lookup-remove :
      (k j : ℕ) (m : Map V) → lookup j (remove k m) ≡ (if k == j then none else lookup j m)
  lookup-remove k j [] = ground arith
  lookup-remove k j ((i, w) ∷ m) = ground (arith, lookup-remove k j m)

  pub emplace_fresh : (k : ℕ) (v : V) (m : Map V) → lookup k m ≡ none → emplace k v m ≡ insert k v m
  emplace_fresh k v m e = ground arith

  pub contains_fresh : (k : ℕ) (m : Map V) → contains k m ≡ false → lookup k m ≡ none
  contains_fresh k m e = ground arith

  -- std::map keeps its entries in the order of the keys.
  abbrev pub insert_ordered : ℕ → V → Map V → Map V
  insert_ordered k v [] = (k, v) ∷ []
  insert_ordered k v ((j, w) ∷ m) =
      if j == k
      then (k, v) ∷ m
      else if ltb k j
      then (k, v) ∷ (j, w) ∷ m
      else (j, w) ∷ insert_ordered k v m

  -- erase(it), where `it` is what find(k) returned.
  abbrev pub erase_entry : ℕ → Map V → Map V
  erase_entry k [] = []
  erase_entry k ((j, w) ∷ m) = if j == k then m else (j, w) ∷ erase_entry k m

  -- The entry before upper_bound(k): the last one whose key is at most k.
  abbrev pub floor_entry : ℕ → Map V → Option (ℕ × V)
  floor_entry k [] = none
  floor_entry k ((j, w) ∷ m) =
      if ltb k j then none else elim (floor_entry k m) [ none ↦ some (j, w) | some e ↦ some e ]

  pub lookup-insert_ordered :
      (k j : ℕ) (v : V) (m : Map V)
      → lookup j (insert_ordered k v m) ≡ (if k == j then some v else lookup j m)
  lookup-insert_ordered k j v [] = refl
  lookup-insert_ordered k j v ((i, w) ∷ m) = ground (arith, lookup-insert_ordered k j v m)
