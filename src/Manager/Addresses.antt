-- ===== src/Manager/Addresses.antt =====
-- The map of region addresses, in which `handle_userfault` looks for the region of a fault.
use dasim.Base.{
  ℕ, ◌+◌, ◌≤◌, ◌<◌, ◌≡◌, ◌≢◌, ◌∙◌, refl, sym, ap, none, some, some_inj, Map, lookup, insert,
  insert_ordered, emplace_fresh, Sorted, insert_ordered-Sorted, insert-found, insert_ordered-found,
  lookup-insert, lookup-insert_same, lookup-insert_other, lookup-insert_ordered_same,
  lookup-insert_ordered_other, floor_entry-finds, ◌==◌, ==→eq, ==→ne, arith, inl, inr, ◌⊎◌,
  Bool-cases,
}
use dasim.Manager.Interface.{BufferManager}
use dasim.Manager.State.{Kernel, CmRegion, ClientRegionInfo, register_userfaultfd}
use dasim.Manager.Ops.{Cm, publish_region}
use dasim.Manager.Faults.{find_region}
use dasim.Manager.Mapcount.{register-regions, register-region_map}

-- The address ranges of two regions do not meet.
abbrev pub Apart : CmRegion → CmRegion → Type 0
Apart r r' = (r.addr + r.size ≤ r'.addr) ⊎ (r'.addr + r'.size ≤ r.addr)

-- The map of addresses has one entry for each region, and the regions are apart.
pub record Indexed (regions : Map CmRegion) (region_map : Map ℕ) : Type 0 where
  pub sorted : Sorted region_map
  pub known :
      (addr id : ℕ)
      → lookup addr region_map ≡ some id
      → ((region : CmRegion) × (lookup id regions ≡ some region) × (region.addr ≡ addr))
  pub entered :
      (id : ℕ) (region : CmRegion)
      → lookup id regions ≡ some region
      → lookup region.addr region_map ≡ some id
  pub sized : (id : ℕ) (region : CmRegion) → lookup id regions ≡ some region → 1 ≤ region.size
  pub apart :
      (id j : ℕ) (r r' : CmRegion)
      → id ≢ j
      → lookup id regions ≡ some r
      → lookup j regions ≡ some r'
      → Apart r r'

Apart-swap : (r r' : CmRegion) → Apart r r' → Apart r' r
Apart-swap r r' (inl below) = inr below
Apart-swap r r' (inr above) = inl above

insert-Indexed :
    (regions : Map CmRegion) (region_map : Map ℕ) (id : ℕ) (region : CmRegion)
    → Indexed regions region_map
    → lookup id regions ≡ none
    → 1 ≤ region.size
    → ((j : ℕ) (r : CmRegion) → lookup j regions ≡ some r → Apart region r)
    → Indexed (insert id region regions) (insert_ordered region.addr id region_map)
insert-Indexed regions region_map id region ix fresh pos free = record {
  sorted = insert_ordered-Sorted region.addr id region_map ix.sorted;
  known = λ a j h. elim (insert_ordered-found region.addr a id j region_map h) [
    | inl (at, is) ↦ rw (← is, ← at) (region, lookup-insert_same id region regions, refl)
    | inr (_, old) ↦
        let (r, there, at) = ix.known a j old in
        let ne : id ≢ j = λ is. ground (arith, is, fresh, there) in
        (r, lookup-insert_other id j region regions ne ∙ there, at)
  ];
  entered = λ j r h. elim (insert-found id j region r regions h) [
    | inl (is, same) ↦ rw (← is, ← same) (lookup-insert_ordered_same region.addr id region_map)
    | inr (_, old) ↦
        let ne : region.addr ≢ r.addr =
          λ at. ground (arith, at, pos, free j r old, ix.sized j r old) in
        lookup-insert_ordered_other region.addr r.addr id region_map ne ∙ ix.entered j r old
  ];
  sized = λ j r h. ground (arith, pos, lookup-insert id j region regions, ix.sized j r, h);
  apart = λ i j r r' ne h h'. elim (insert-found id i region r regions h) [
    | inl (is, same) ↦ elim (insert-found id j region r' regions h') [
      | inl (is', _) ↦ absurd (ne (sym is ∙ is'))
      | inr (_, old') ↦ rw (← same) (free j r' old')
    ]
    | inr (_, old) ↦ elim (insert-found id j region r' regions h') [
      | inl (_, same') ↦ rw (← same') (Apart-swap region r (free i r old))
      | inr (_, old') ↦ ix.apart i j r r' ne old old'
    ]
  ];
}

module _ (bm : BufferManager) (kernel : Kernel) where
  -- Every address of a region is found to lie in that region, provided the map of addresses is
  -- in order and the regions are apart.
  pub find_region-finds :
      (s : Cm bm kernel) (id addr : ℕ) (region : CmRegion)
      → Indexed s.regions s.region_map
      → lookup id s.regions ≡ some region
      → region.addr ≤ addr
      → addr < region.addr + region.size
      → find_region bm kernel s addr ≡ some (id, region)
  unfolding find_region
  find_region-finds s id addr region ix found from to =
      let most : (b i : ℕ) → lookup b s.region_map ≡ some i → b ≤ addr → b ≤ region.addr =
        λ b i h le.
          let (r, there, at_b) = ix.known b i h in
          elim (Bool-cases (id == i)) [
            | inl same ↦
                let at_region =
                  some_inj region r
                    (sym found ∙ ap (λ x. lookup x s.regions) (==→eq id i same) ∙ there) in
                omega (arith, at_b, ap (λ (x : CmRegion). x.addr) at_region)
            | inr other ↦ ground (
              arith,
              ix.apart id i region r (==→ne id i other) found there,
              ix.sized i r there,
              at_b,
              le,
              to,
            )
          ] in
      rw
        (
          floor_entry-finds addr region.addr id s.region_map ix.sorted (ix.entered id region found)
              from most,
          found,
        )
        refl

  -- A region that `add_region` publishes under a new id, at addresses apart from those of the
  -- other regions, leaves the map of addresses in order.
  pub publish_region-Indexed :
      (s : Cm bm kernel) (id addr n segid : ℕ) (out : ClientRegionInfo)
      → Indexed s.regions s.region_map
      → lookup id s.regions ≡ none
      → 1 ≤ n
      → ((j : ℕ) (r : CmRegion)
          → lookup j s.regions ≡ some r
          → (addr + n ≤ r.addr) ⊎ (r.addr + r.size ≤ addr))
      → let s' = (publish_region bm kernel s id addr n segid out).2 in
        Indexed s'.regions s'.region_map
  unfolding publish_region register_userfaultfd
  publish_region-Indexed s id addr n segid out ix fresh pos free =
      let region : CmRegion = record { addr = addr; size = n; segid = segid; mapcount = 1 } in
      rw
        (
          register-regions kernel s addr n,
          emplace_fresh id region s.regions fresh,
          register-region_map kernel s addr n,
        )
        (insert-Indexed s.regions s.region_map id region ix fresh pos free)
