-- ===== src/Base/Keys.antt =====
-- What is found in the maps of Base/Maps after an insertion, and the order of std::map.
use Prim.Native.Nat.{ℕ, ◌≤◌, ◌<◌}
use mathlib.Core.Path.{◌≡◌, refl, sym, ◌∙◌}
use mathlib.Core.Logic.{◌≢◌, ◌⊎◌, inl, inr}
use mathlib.Core.List.{[], ◌∷◌}
use mathlib.Core.Option.{none, some}
use native.Mathlib.Omega.{arith}
use dasim.Base.Tests.{
  ◌==◌, ltb, if_true, if_false, ==_refl, ne→==, ==→eq, ==→ne, Bool-cases, some_inj,
}
use dasim.Base.Maps.{
  Map, lookup, insert, insert_ordered, remove, floor_entry, lookup-insert, lookup-insert_ordered,
  lookup-remove,
}

module _ {V : Type 0} where
  -- All keys lie above `j`.
  abbrev pub Above : ℕ → Map V → Type 0
  Above j m = (k : ℕ) (v : V) → lookup k m ≡ some v → j < k

  abbrev pub Sorted : Map V → Type 0
  Sorted [] = Unit
  Sorted ((j, v) ∷ m) = Above j m × Sorted m

  pub insert_ordered-Sorted : (k : ℕ) (v : V) (m : Map V) → Sorted m → Sorted (insert_ordered k v m)
  insert_ordered-Sorted k v [] s = (λ j w h. absurd cc, tt)
  insert_ordered-Sorted k v ((j, w) ∷ m) (above, s) = elim (Bool-cases (j == k)) [
    | inl same ↦ rw same (λ i x h. ground (arith, same, above i x h), s)
    | inr other ↦ elim (Bool-cases (ltb k j)) [
      | inl below ↦ rw (other, below) (λ i x h. ground (arith, below, above i x), (above, s))
      | inr beyond ↦
          rw (other, beyond)
            (
              λ i x h. ground (arith, other, beyond, lookup-insert_ordered k i v m, above i x),
              insert_ordered-Sorted k v m s,
            )
    ]
  ]

  pub remove-Sorted : (k : ℕ) (m : Map V) → Sorted m → Sorted (remove k m)
  remove-Sorted k [] s = s
  remove-Sorted k ((j, w) ∷ m) (above, s) = elim (Bool-cases (j == k)) [
    | inl same ↦ rw same (remove-Sorted k m s)
    | inr other ↦
        rw other (λ i x h. ground (arith, lookup-remove k i m, above i x), remove-Sorted k m s)
  ]

  floor_entry-none : (k : ℕ) (m : Map V) → Above k m → floor_entry k m ≡ none
  floor_entry-none k [] above = refl
  floor_entry-none k ((j, w) ∷ m) above = ground (arith, above j w)

  -- The entry below `k` that no other key below `k` exceeds.
  pub floor_entry-finds :
      (k a : ℕ) (v : V) (m : Map V)
      → Sorted m
      → lookup a m ≡ some v
      → a ≤ k
      → ((b : ℕ) (w : V) → lookup b m ≡ some w → b ≤ k → b ≤ a)
      → floor_entry k m ≡ some (a, v)
  floor_entry-finds k a v [] s found le most = absurd cc
  floor_entry-finds k a v ((j, w) ∷ m) (above, s) found le most = elim (Bool-cases (j == a)) [
    | inl same ↦
        let beyond : Above k m = λ b x h. ground (arith, same, above b x h, most b x) in
        ground (arith, same, floor_entry-none k m beyond, found)
    | inr other ↦
        let later : lookup a m ≡ some v = ground (arith, other, found) in
        let rest =
          floor_entry-finds k a v m s later le
            (λ b x h. ground (arith, above b x h, most b x, h)) in
        rw rest (ground (arith, above a v later, le))
  ]

pub insert-found :
    {V : Type 0} (k j : ℕ) (v w : V) (m : Map V)
    → lookup j (insert k v m) ≡ some w
    → ((k ≡ j) × (v ≡ w)) ⊎ ((k ≢ j) × (lookup j m ≡ some w))
insert-found k j v w m h = elim (Bool-cases (k == j)) [
  | inl same ↦
      inl (==→eq k j same, some_inj v w (sym (lookup-insert k j v m ∙ if_true _ _ _ same) ∙ h))
  | inr other ↦ inr (==→ne k j other, sym (lookup-insert k j v m ∙ if_false _ _ _ other) ∙ h)
]

pub insert_ordered-found :
    {V : Type 0} (k j : ℕ) (v w : V) (m : Map V)
    → lookup j (insert_ordered k v m) ≡ some w
    → ((k ≡ j) × (v ≡ w)) ⊎ ((k ≢ j) × (lookup j m ≡ some w))
insert_ordered-found k j v w m h = elim (Bool-cases (k == j)) [
  | inl same ↦
      inl (
        ==→eq k j same,
        some_inj v w (sym (lookup-insert_ordered k j v m ∙ if_true _ _ _ same) ∙ h),
      )
  | inr other ↦
      inr (==→ne k j other, sym (lookup-insert_ordered k j v m ∙ if_false _ _ _ other) ∙ h)
]

pub lookup-insert_same : {V : Type 0} (k : ℕ) (v : V) (m : Map V) → lookup k (insert k v m) ≡ some v
lookup-insert_same k v m = lookup-insert k k v m ∙ if_true _ _ _ (==_refl k)

pub lookup-insert_other :
    {V : Type 0} (k j : ℕ) (v : V) (m : Map V) → k ≢ j → lookup j (insert k v m) ≡ lookup j m
lookup-insert_other k j v m ne = lookup-insert k j v m ∙ if_false _ _ _ (ne→== k j ne)

pub lookup-insert_ordered_same :
    {V : Type 0} (k : ℕ) (v : V) (m : Map V) → lookup k (insert_ordered k v m) ≡ some v
lookup-insert_ordered_same k v m = lookup-insert_ordered k k v m ∙ if_true _ _ _ (==_refl k)

pub lookup-insert_ordered_other :
    {V : Type 0} (k j : ℕ) (v : V) (m : Map V)
    → k ≢ j
    → lookup j (insert_ordered k v m) ≡ lookup j m
lookup-insert_ordered_other k j v m ne =
    lookup-insert_ordered k j v m ∙ if_false _ _ _ (ne→== k j ne)
