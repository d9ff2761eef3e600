-- ===== src/Demo/State/Slots.antt =====
-- Laws of the page table entries of all regions, seen through `pte_at` and `set_pte`.
use dasim.Base.{
  remove, lookup-remove, ℕ, ◌≡◌, ◌≢◌, ap, ◌==◌, if◌then◌else◌, none, some, inl, inr, Map, lookup,
  insert, lookup-insert, set, get_elem?, get_elem?-set_self, get_elem?-set_ne, ==_refl,
  Option-cases, ne→==, arith, ◌⊎◌,
}
use dasim.Demo.Pte.{RegionPte, Region, get_pte}
use dasim.Demo.State.{pte_at, set_pte}

pub lookup-set_pte :
    (rs : Map Region) (id i : ℕ) (pte : RegionPte) (r : Region) (j : ℕ)
    → lookup id rs ≡ some r
    → lookup j (set_pte rs id i pte)
      ≡ (if id == j then some (record r { ptes = set r.ptes i pte }) else lookup j rs)
unfolding set_pte
lookup-set_pte rs id i pte r j e =
    rw (e, set_pte) (lookup-insert id j (record r { ptes = set r.ptes i pte }) rs)

-- The entry that is written.
pub pte_at-set_pte_self :
    (rs : Map Region) (id i : ℕ) (pte old : RegionPte)
    → pte_at rs id i ≡ some old
    → pte_at (set_pte rs id i pte) id i ≡ some pte
unfolding pte_at get_pte
pte_at-set_pte_self rs id i pte old e = elim (Option-cases (lookup id rs)) [
  | inl n ↦ ground arith
  | inr (r, f) ↦
      rw (lookup-set_pte rs id i pte r id f, ==_refl id)
        (ground (arith, get_elem?-set_self r.ptes i pte old))
]

-- Every other entry.
pub pte_at-set_pte_ne :
    (rs : Map Region) (id i : ℕ) (pte : RegionPte) (id' i' : ℕ)
    → (id ≢ id') ⊎ (i ≢ i')
    → pte_at (set_pte rs id i pte) id' i' ≡ pte_at rs id' i'
unfolding pte_at set_pte get_pte
pte_at-set_pte_ne rs id i pte id' i' h = elim (Option-cases (lookup id rs)) [
  | inl n ↦ rw (n, set_pte)
  | inr (r, f) ↦
      rw (lookup-set_pte rs id i pte r id' f)
        (ground (arith, get_elem?-set_ne r.ptes i i' pte, ap (λ k. lookup k rs)))
]

pub pte_at-remove_self : (rs : Map Region) (id i : ℕ) → pte_at (remove id rs) id i ≡ none
unfolding pte_at
pte_at-remove_self rs id i = rw (lookup-remove id id rs, ==_refl id)

pub pte_at-remove_ne :
    (rs : Map Region) (id id' i : ℕ) → id ≢ id' → pte_at (remove id rs) id' i ≡ pte_at rs id' i
unfolding pte_at
pte_at-remove_ne rs id id' i ne = rw (lookup-remove id id' rs, ne→== id id' ne)

-- The entries of the region that `id` names.
pub pte_at-lookup :
    (rs : Map Region) (id : ℕ) (r : Region) (i : ℕ)
    → lookup id rs ≡ some r
    → pte_at rs id i ≡ get_elem? r.ptes i
unfolding pte_at get_pte
pte_at-lookup rs id r i e = rw e

pub pte_at-lookup-none : (rs : Map Region) (id i : ℕ) → lookup id rs ≡ none → pte_at rs id i ≡ none
unfolding pte_at
pte_at-lookup-none rs id i e = rw e

pub pte_at-insert_self :
    (rs : Map Region) (id : ℕ) (r : Region) (i : ℕ)
    → pte_at (insert id r rs) id i ≡ get_elem? r.ptes i
unfolding pte_at get_pte
pte_at-insert_self rs id r i = rw (lookup-insert id id r rs, ==_refl id)

pub pte_at-insert_ne :
    (rs : Map Region) (id : ℕ) (r : Region) (id' i : ℕ)
    → id ≢ id'
    → pte_at (insert id r rs) id' i ≡ pte_at rs id' i
unfolding pte_at
pte_at-insert_ne rs id r id' i ne = rw (lookup-insert id id' r rs, ne→== id id' ne)
