-- ===== src/Manager/Mapcount/Counts.antt =====
-- The counts of mappings of the regions, and how an insertion or a removal changes them.
use dasim.Base.{
  ℕ, ◌+◌, ◌≤◌, ◌≡◌, ◌≢◌, ap, Option, none, some, List, Map, lookup, lookup-insert, lookup-remove,
  insert, remove, ◌==◌, if◌then◌else◌, arith, ◌⊎◌,
}
use dasim.Manager.State.{Kernel, CmRegion, make_failed, Event, register_userfaultfd, ClientManager}

-- The number of mappings that the manager knows of a region; 0 if there is none.
abbrev pub count_in : Option CmRegion → ℕ
count_in none = 0
count_in (some region) = region.mapcount

abbrev pub mapcount_of : Map CmRegion → ℕ → ℕ
mapcount_of regions id = count_in (lookup id regions)

-- No region without a mapping.
abbrev pub Live : Map CmRegion → Type 0
Live regions = (id : ℕ) (region : CmRegion) → lookup id regions ≡ some region → 1 ≤ region.mapcount

-- xpmem_make() sets errno when it fails.
abbrev pub SetsErrno : Kernel → Type 0
SetsErrno kernel =
    (trace : List Event) (addr size errsv : ℕ)
    → kernel.make trace addr size ≡ make_failed errsv
    → errsv ≢ 0

-- xpmem_remove() does not fail.
abbrev pub Removes : Kernel → Type 0
Removes kernel = (trace : List Event) (segid : ℕ) → kernel.remove trace segid ≡ none

-- One more mapping of `id`.
pub record Gains (regions : Map CmRegion) (id : ℕ) (regions' : Map CmRegion) : Type 0 where
  pub counts : (j : ℕ) → mapcount_of regions' j ≡ mapcount_of regions j + (if id == j then 1 else 0)
  pub live : Live regions'

pub insert-Gains :
    (regions : Map CmRegion) (id : ℕ) (region : CmRegion)
    → Live regions
    → region.mapcount ≡ mapcount_of regions id + 1
    → Gains regions id (insert id region regions)
insert-Gains regions id region live e = record {
  counts = λ j. ground (
    arith,
    e,
    ap count_in (lookup-insert id j region regions),
    λ (is : id ≡ j). ap (mapcount_of regions) is,
  );
  live = λ j r f. ground (arith, e, lookup-insert id j region regions, live j r);
}

pub register-regions :
    {B : Type 0} (kernel : Kernel) (s : ClientManager B) (addr size : ℕ)
    → (register_userfaultfd kernel s addr size).1.regions ≡ s.regions
unfolding register_userfaultfd
register-regions kernel s addr size = ground arith

pub register-region_map :
    {B : Type 0} (kernel : Kernel) (s : ClientManager B) (addr size : ℕ)
    → (register_userfaultfd kernel s addr size).1.region_map ≡ s.region_map
unfolding register_userfaultfd
register-region_map kernel s addr size = ground arith

-- A call that maps `id` and returns 0, or that fails and changes no region.
abbrev pub Outcome : Map CmRegion → ℕ → ℕ → Map CmRegion → Type 0
Outcome regions id code regions' =
    ((code ≡ 0) × Gains regions id regions') ⊎ ((code ≢ 0) × (regions' ≡ regions))

-- One mapping of `id` less.
pub record Loses (regions : Map CmRegion) (id : ℕ) (regions' : Map CmRegion) : Type 0 where
  pub counts : (j : ℕ) → mapcount_of regions' j + (if id == j then 1 else 0) ≡ mapcount_of regions j
  pub live : Live regions'

pub insert-Loses :
    (regions : Map CmRegion) (id : ℕ) (region : CmRegion)
    → Live regions
    → region.mapcount + 1 ≡ mapcount_of regions id
    → 1 ≤ region.mapcount
    → Loses regions id (insert id region regions)
insert-Loses regions id region live e pos = record {
  counts = λ j. ground (
    arith,
    e,
    ap count_in (lookup-insert id j region regions),
    λ (is : id ≡ j). ap (mapcount_of regions) is,
  );
  live = λ j r f. ground (arith, e, pos, lookup-insert id j region regions, live j r);
}

pub remove-Loses :
    (regions : Map CmRegion) (id : ℕ) (region : CmRegion)
    → Live regions
    → mapcount_of regions id ≡ 1
    → Loses regions id (remove id (insert id region regions))
remove-Loses regions id region live e =
    let same : (j : ℕ)
        → lookup j (remove id (insert id region regions))
          ≡ (if id == j then none else lookup j regions) =
      λ j.
        ground (
          arith,
          lookup-insert id j region regions,
          lookup-remove id j (insert id region regions),
        ) in
    record {
      counts = λ j.
          ground (arith, e, ap count_in (same j), λ (is : id ≡ j). ap (mapcount_of regions) is);
      live = λ j r f. ground (arith, e, same j, live j r);
    }
