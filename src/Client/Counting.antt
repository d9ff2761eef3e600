-- ===== src/Client/Counting.antt =====
-- How the calls of a client change its mappings together with the map counts of the manager.
use dasim.Base.{
  ℕ, ◌+◌, ◌≤◌, ◌<◌, ◌≡◌, refl, none, some, some_inj, [], ◌∷◌, Map, lookup, insert_ordered,
  erase_entry, ◌==◌, if◌then◌else◌, u64, ne→==, >>=-eq-some, arith, inl, inr, Option-cases,
}
use dasim.Calls.{CallParams, Payload}
use dasim.Manager.Interface.{BufferManager}
use dasim.Manager.State.{Kernel, CmRegion, ClientRegionInfo}
use dasim.Manager.Ops.{Cm, allocate, map, unmap, unanchor, persist}
use dasim.Manager.Untouched.{
  persist-regions, unanchor-regions, get_size-regions, anchor-regions, advise-regions,
}
use dasim.Manager.Mapcount.{
  mapcount_of, Live, SetsErrno, Removes, Outcome, allocate-Outcome, map-Outcome, unmap-Loses,
}
use dasim.Client.{
  Client, Server, answer_region, handle_call_unmap, handle_call_persist, handle_call_get_size,
  no_info, handle_call,
}

-- How often a client has mapped a region.
abbrev pub count_id : ℕ → Map ℕ → ℕ
count_id id [] = 0
count_id id ((addr, i) ∷ m) = (if i == id then 1 else 0) + count_id id m

count_id-insert_ordered :
    (id addr i : ℕ) (m : Map ℕ)
    → count_id id (insert_ordered addr i m) ≤ (if i == id then 1 else 0) + count_id id m
count_id-insert_ordered id addr i [] = ground arith
count_id-insert_ordered id addr i ((a, j) ∷ m) = ground (arith, count_id-insert_ordered id addr i m)

count_id-insert_fresh :
    (id addr i : ℕ) (m : Map ℕ)
    → lookup addr m ≡ none
    → count_id id (insert_ordered addr i m) ≡ (if i == id then 1 else 0) + count_id id m
count_id-insert_fresh id addr i [] fresh = ground arith
count_id-insert_fresh id addr i ((a, j) ∷ m) fresh =
    ground (arith, count_id-insert_fresh id addr i m)

count_id-erase_entry :
    (id addr i : ℕ) (m : Map ℕ)
    → lookup addr m ≡ some i
    → (if i == id then 1 else 0) + count_id id (erase_entry addr m) ≡ count_id id m
count_id-erase_entry id addr i [] found = ground arith
count_id-erase_entry id addr i ((a, j) ∷ m) found =
    ground (arith, found, count_id-erase_entry id addr i m)

-- What a call does to a client's mappings and to the regions. The mappings grow by no more than the
-- counts, and by the same if `Fresh`.
pub record Balance (Fresh : Type 0) (m : Map ℕ) (regions : Map CmRegion) (m' : Map ℕ)
    (regions' : Map CmRegion) : Type 0 where
  pub covered :
      (id : ℕ) → mapcount_of regions id + count_id id m' ≤ mapcount_of regions' id + count_id id m
  pub exact :
      Fresh
      → (id : ℕ) → mapcount_of regions id + count_id id m' ≡ mapcount_of regions' id + count_id id m
  pub grows : (id : ℕ) → mapcount_of regions' id ≤ mapcount_of regions id + 1
  pub live : Live regions'

same-Balance :
    {F : Type 0} (m : Map ℕ) (regions : Map CmRegion) → Live regions → Balance F m regions m regions
same-Balance m regions live = record {
  covered = λ id. omega arith;
  exact = λ _ id. refl;
  grows = λ id. omega arith;
  live = live;
}

module _ (bm : BufferManager) (kernel : Kernel) where
  answer_region-Balance :
      (c : Client) (addr id : ℕ) (regions : Map CmRegion) (r : ℕ × ClientRegionInfo × Cm bm kernel)
      → Live regions
      → Outcome regions id r.0 r.2.regions
      → let a = (answer_region bm kernel c addr id r).2 in
        Balance
          (lookup addr c.mappings ≡ none)
          c.mappings
          regions
          a.client.mappings
          a.manager.regions
  unfolding answer_region
  answer_region-Balance c addr id regions (ret, info, m) live (inl (ok, gains)) = rw ok record {
    covered = λ j. ground (arith, gains.counts j, count_id-insert_ordered j addr id c.mappings);
    exact =
        λ fresh j. ground (arith, gains.counts j, count_id-insert_fresh j addr id c.mappings fresh);
    grows = λ j. ground (arith, gains.counts j);
    live = gains.live;
  }
  answer_region-Balance c addr id regions (ret, info, m) live (inr (failed, same)) =
      rw (ne→== ret 0 failed, same) (same-Balance c.mappings regions live)

  unmap-Balance :
      {F : Type 0}
      → Removes kernel
      → (c : Client) (m : Cm bm kernel) (addr : ℕ) (r : ℕ × Payload × Server bm kernel)
      → Live m.regions
      → ((id : ℕ) → mapcount_of m.regions id < u64)
      → ((id : ℕ) → count_id id c.mappings ≤ mapcount_of m.regions id)
      → handle_call_unmap bm kernel c m addr ≡ some r
      → Balance F c.mappings m.regions r.2.client.mappings r.2.manager.regions
  unfolding handle_call_unmap
  unmap-Balance removes c m addr r live room backed e =
      elim (Option-cases (lookup addr c.mappings)) [
        | inl absent ↦
            let k = rw (absent, handle_call_unmap) at e in
            rw (← some_inj _ _ k) (same-Balance c.mappings m.regions live)
        | inr (id, found) ↦
            let (a, left, k) =
              >>=-eq-some (unmap bm kernel m id) _ (rw (found, handle_call_unmap) at e) in
            let counts = λ (j : ℕ). count_id-erase_entry j addr id c.mappings found in
            let (_, loses) =
              unmap-Loses bm kernel removes m id a live (ground (arith, counts id, backed id))
                (room id) left in
            rw (← some_inj _ _ k) record {
              covered = λ j. ground (arith, counts j, loses.counts j);
              exact = λ _ j. ground (arith, counts j, loses.counts j);
              grows = λ j. ground (arith, loses.counts j);
              live = loses.live;
            }
      ]

  persist-Balance :
      {F : Type 0} (c : Client) (m : Cm bm kernel) (addr off n : ℕ)
      (r : ℕ × Payload × Server bm kernel)
      → Live m.regions
      → handle_call_persist bm kernel c m addr off n ≡ some r
      → Balance F c.mappings m.regions r.2.client.mappings r.2.manager.regions
  unfolding handle_call_persist
  persist-Balance c m addr off n r live e = elim (Option-cases (lookup addr c.mappings)) [
    | inl absent ↦
        let k = rw (absent, handle_call_persist) at e in
        rw (← some_inj _ _ k) (same-Balance c.mappings m.regions live)
    | inr (id, found) ↦
        let (a, done, k) =
          >>=-eq-some (persist bm kernel m id off n) _ (rw (found, handle_call_persist) at e) in
        rw (← some_inj _ _ k, persist-regions bm kernel m id off n a done)
          (same-Balance c.mappings m.regions live)
  ]

  get_size-Balance :
      {F : Type 0} (c : Client) (m : Cm bm kernel) (id : ℕ)
      → Live m.regions
      → let a = (handle_call_get_size bm kernel c m id).2 in
        Balance F c.mappings m.regions a.client.mappings a.manager.regions
  unfolding handle_call_get_size
  get_size-Balance c m id live =
      rw (get_size-regions bm kernel m id 0) (same-Balance c.mappings m.regions live)

  -- The address that a call maps at is not one of the client's mappings.
  abbrev pub Fresh : Client → CallParams → Type 0
  Fresh c (CallParams.alloc id addr size properties) = lookup addr c.mappings ≡ none
  Fresh c (CallParams.map id addr size) = lookup addr c.mappings ≡ none
  Fresh c _ = Unit

  -- What every call does to the counts.
  pub handle_call-Balance :
      SetsErrno kernel
      → Removes kernel
      → (c : Client) (m : Cm bm kernel) (params : CallParams) (r : ℕ × Payload × Server bm kernel)
      → Live m.regions
      → ((id : ℕ) → mapcount_of m.regions id + 1 < u64)
      → ((id : ℕ) → count_id id c.mappings ≤ mapcount_of m.regions id)
      → handle_call bm kernel c m params ≡ some r
      → Balance (Fresh c params) c.mappings m.regions r.2.client.mappings r.2.manager.regions
  unfolding handle_call
  handle_call-Balance errno removes c m (CallParams.alloc id addr size properties) r live room
        backed e =
      let (a, done, k) =
        >>=-eq-some (allocate bm kernel m id size properties (no_info bm kernel)) _ e in
      rw (← some_inj _ _ k) (
        answer_region-Balance c addr id m.regions a live
          (allocate-Outcome bm kernel errno m id size properties _ a live done))
  handle_call-Balance errno removes c m (CallParams.anchor id) r live room backed e =
      rw (← some_inj _ _ e, anchor-regions bm kernel m id) (same-Balance c.mappings m.regions live)
  handle_call-Balance errno removes c m (CallParams.unanchor id) r live room backed e =
      let (a, done, k) = >>=-eq-some (unanchor bm kernel m id) _ e in
      rw (← some_inj _ _ k, unanchor-regions bm kernel m id a done)
        (same-Balance c.mappings m.regions live)
  handle_call-Balance errno removes c m (CallParams.get_size id) r live room backed e =
      rw (← some_inj _ _ e) (get_size-Balance c m id live)
  handle_call-Balance errno removes c m (CallParams.map id addr size) r live room backed e =
      let (a, done, k) = >>=-eq-some (map bm kernel m id (no_info bm kernel)) _ e in
      rw (← some_inj _ _ k) (
        answer_region-Balance c addr id m.regions a live
          (map-Outcome bm kernel errno m id _ a live (room id) done))
  handle_call-Balance errno removes c m (CallParams.unmap addr) r live room backed e =
      unmap-Balance removes c m addr r live (λ id. omega (arith, room id)) backed e
  handle_call-Balance errno removes c m (CallParams.persist addr off size) r live room backed e =
      persist-Balance c m addr off size r live e
  handle_call-Balance errno removes c m (CallParams.advise id properties) r live room backed e =
      rw (← some_inj _ _ e, advise-regions bm kernel m id properties)
        (same-Balance c.mappings m.regions live)
  handle_call-Balance errno removes c m CallParams.unknown r live room backed e =
      rw (← some_inj _ _ e) (same-Balance c.mappings m.regions live)

  -- A call keeps the count: if each region is counted once for each mapping that this client has of
  -- it and `other id` times besides, then so it is after any call whose address, where it maps,
  -- is not one of the client's mappings. This takes a kernel whose xpmem_make() sets errno on
  -- failure and whose xpmem_remove() does not fail, counters that do not overflow, that each region has
  -- a mapping before, and a call that returns.
  pub handle_call-Counted :
      SetsErrno kernel
      → Removes kernel
      → (other : ℕ → ℕ) (c : Client) (m : Cm bm kernel) (params : CallParams)
        (r : ℕ × Payload × Server bm kernel)
      → Live m.regions
      → ((id : ℕ) → mapcount_of m.regions id + 1 < u64)
      → ((id : ℕ) → mapcount_of m.regions id ≡ other id + count_id id c.mappings)
      → Fresh c params
      → handle_call bm kernel c m params ≡ some r
      → (id : ℕ) → mapcount_of r.2.manager.regions id ≡ other id + count_id id r.2.client.mappings
  handle_call-Counted errno removes other c m params r live room counted fresh e id =
      let balance =
        handle_call-Balance errno removes c m params r live room (λ j. omega (arith, counted j))
          e in
      omega (arith, counted id, balance.exact fresh id)
