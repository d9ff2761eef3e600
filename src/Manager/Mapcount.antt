-- ===== src/Manager/Mapcount.antt =====
-- How the operations of the client manager change the map counts of its regions.
mod Counts
pub use Counts.*
use dasim.Base.{
  ℕ, ◌+◌, ◌≤◌, ◌<◌, ◌≡◌, ◌≢◌, ◌∙◌, refl, sym, ap, not, Option, none, some, some_inj, if_true,
  if_false, List, Map, lookup, lookup-insert, lookup-remove, insert, remove, emplace_fresh,
  contains, contains_fresh, ltb, ◌==◌, if◌then◌else◌, sub64, u64, >>=-eq-some, arith, inl, inr, ◌⊎◌,
  Bool-cases, Option-cases,
}
use dasim.Types.{Properties}
use dasim.Manager.Interface.{BufferManager}
use dasim.Manager.State.{
  Kernel, CmRegion, ClientRegionInfo, MakeResult-cases, make_failed, xpmem_make, Event,
  register_userfaultfd, emit, ClientManager,
}
use dasim.Manager.Ops.{Cm, publish_region, add_region, allocate, map, unmap, drop_region, no_region}

module _ (bm : BufferManager) (kernel : Kernel) where
  publish_region-Gains :
      (s : Cm bm kernel) (id addr size segid : ℕ) (out : ClientRegionInfo)
      → Live s.regions
      → lookup id s.regions ≡ none
      → Gains s.regions id (publish_region bm kernel s id addr size segid out).2.regions
  unfolding publish_region
  publish_region-Gains s id addr size segid out live fresh =
      let region : CmRegion = record { addr = addr; size = size; segid = segid; mapcount = 1 } in
      rw (register-regions kernel s addr size, emplace_fresh id region s.regions fresh)
        (insert-Gains s.regions id region live (rw fresh (omega arith)))

  add_region-Outcome :
      SetsErrno kernel
      → (s : Cm bm kernel) (id addr size : ℕ) (out : ClientRegionInfo)
        (r : ℕ × ClientRegionInfo × Cm bm kernel)
      → Live s.regions
      → lookup id s.regions ≡ none
      → add_region bm kernel s id addr size out ≡ some r
      → Outcome s.regions id r.0 r.2.regions
  unfolding add_region
  add_region-Outcome errno s id addr size out r live fresh e =
      elim (MakeResult-cases (kernel.make s.trace addr size)) [
        | inl (errsv, failed) ↦
            let (b, _, k) =
              >>=-eq-some (bm.free s.buffer_manager id) _ (rw (failed, add_region) at e) in
            rw (← some_inj _ _ k) (inr (errno s.trace addr size errsv failed, refl))
        | inr (segid, ok) ↦
            let s1 : Cm bm kernel = emit s (xpmem_make addr size) in
            rw (← some_inj _ _ (rw (ok, add_region) at e))
              (inl (refl, publish_region-Gains s1 id addr size segid out live fresh))
      ]

  -- `allocate` either returns 0 with one more mapping of `id`, and each region still has one, or
  -- returns an error and changes no region. This takes that each region has a mapping before, and
  -- that xpmem_make() sets errno when it fails.
  pub allocate-Outcome :
      SetsErrno kernel
      → (s : Cm bm kernel) (id size : ℕ) (properties : Properties) (out : ClientRegionInfo)
        (r : ℕ × ClientRegionInfo × Cm bm kernel)
      → Live s.regions
      → allocate bm kernel s id size properties out ≡ some r
      → Outcome s.regions id r.0 r.2.regions
  unfolding allocate
  allocate-Outcome errno s id size properties out r live e =
      elim (Bool-cases (contains id s.regions)) [
        | inl is ↦
            let k = rw (is, allocate) at e in rw (← some_inj _ _ k) (inr (ground arith, refl))
        | inr isnt ↦
            let e1 = rw (isnt, allocate) at e in
            let anchored = bm.get_anchored_region s.buffer_manager id (no_region bm kernel) in
            elim (Bool-cases (anchored.0 == 0)) [
              | inl is ↦
                  let k = sym (if_true _ _ _ is) ∙ e1 in
                  rw (← some_inj _ _ k) (inr (ground arith, refl))
              | inr not_anchored ↦
                  let (a, _, k) =
                    >>=-eq-some (bm.allocate anchored.2 id size properties 0) _
                      (sym (if_false _ _ _ not_anchored) ∙ e1) in
                  elim (Bool-cases (not (a.0 == 0))) [
                    | inl failed ↦
                        let k' = sym (if_true _ _ _ failed) ∙ k in
                        rw (← some_inj (a.0, out, record s { buffer_manager = a.2 }) r k')
                          (inr (ground (arith, failed), refl))
                    | inr done ↦
                        add_region-Outcome errno (record s { buffer_manager = a.2 }) id a.1 size out
                          r live (contains_fresh id s.regions isnt) (sym (if_false _ _ _ done) ∙ k)
                  ]
            ]
      ]

  -- `map` either returns 0 with one more mapping of `id`, and each region still has one, or returns
  -- an error and changes no region. This takes that each region has a mapping before, that the
  -- counter of `id` does not overflow, and that xpmem_make() sets errno when it fails.
  pub map-Outcome :
      SetsErrno kernel
      → (s : Cm bm kernel) (id : ℕ) (out : ClientRegionInfo)
        (r : ℕ × ClientRegionInfo × Cm bm kernel)
      → Live s.regions
      → mapcount_of s.regions id + 1 < u64
      → map bm kernel s id out ≡ some r
      → Outcome s.regions id r.0 r.2.regions
  unfolding map
  map-Outcome errno s id out r live room e = elim (Option-cases (lookup id s.regions)) [
    | inl fresh ↦
        let e1 = rw (fresh, map) at e in
        let anchored = bm.get_anchored_region s.buffer_manager id (no_region bm kernel) in
        elim (Bool-cases (not (anchored.0 == 0))) [
          | inl failed ↦
              let k = sym (if_true _ _ _ failed) ∙ e1 in
              rw (← some_inj _ _ k) (inr (ground (arith, failed), refl))
          | inr found ↦
              add_region-Outcome errno (record s { buffer_manager = anchored.2 }) id anchored.1.addr
                anchored.1.size out r live fresh (sym (if_false _ _ _ found) ∙ e1)
        ]
    | inr (region, found) ↦ rw (← some_inj _ _ (rw (found, map) at e)) (
        inl (
          refl,
          insert-Gains s.regions id _ live (rw found (ground (arith, ap count_in found, room))),
        ))
  ]

  -- `unmap` of a region with a mapping returns 0 and takes one mapping of `id` away, the counts of
  -- other regions stay, and no region is left without a mapping. This takes that each region has
  -- a mapping before and that xpmem_remove() does not fail.
  pub unmap-Loses :
      Removes kernel
      → (s : Cm bm kernel) (id : ℕ) (r : ℕ × Cm bm kernel) → Live s.regions
      → 1 ≤ mapcount_of s.regions id
      → mapcount_of s.regions id < u64
      → unmap bm kernel s id ≡ some r
      → (r.0 ≡ 0) × Loses s.regions id r.1.regions
  unfolding unmap
  unmap-Loses removes s id r live pos room e = elim (Option-cases (lookup id s.regions)) [
    | inl absent ↦ absurd (omega (arith, pos, ap count_in absent))
    | inr (region, found) ↦
        let e1 = rw (found, unmap) at e in
        let left : sub64 region.mapcount 1 + 1 ≡ mapcount_of s.regions id =
          rw found (ground (arith, ap count_in found, pos, room)) in
        elim (Bool-cases (ltb 0 (sub64 region.mapcount 1))) [
          | inl more ↦
              let k = sym (if_true _ _ _ more) ∙ e1 in
              rw (← some_inj _ _ k)
                (refl, insert-Loses s.regions id _ live left (ground (arith, more)))
          | inr last ↦
              let region' = record region { mapcount = sub64 region.mapcount 1 } in
              let s' : Cm bm kernel = record s { regions = insert id region' s.regions } in
              let k = sym (if_false _ _ _ last) ∙ e1 in
              let (b, _, k') =
                >>=-eq-some (bm.free s.buffer_manager id) _
                  (rw (removes s.trace region.segid, drop_region) at k) in
              rw (← some_inj _ _ k')
                (refl, remove-Loses s.regions id region' live (ground (arith, left, last)))
        ]
  ]
