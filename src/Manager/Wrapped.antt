-- ===== src/Manager/Wrapped.antt =====
-- What `unmap` leaves when xpmem_remove() fails.
use dasim.Base.{
  ℕ, ◌-◌, ◌≡◌, refl, some, lookup, insert, lookup-insert_same, u64, sub64, ltb, arith, true, false,
}
use dasim.Manager.Interface.{BufferManager}
use dasim.Manager.State.{Kernel, CmRegion, emit, xpmem_remove}
use dasim.Manager.Mapcount.{mapcount_of}
use dasim.Manager.Ops.{Cm, unmap, drop_region}

module _ (bm : BufferManager) (kernel : Kernel) where
  -- If xpmem_remove() fails when the last mapping of a region goes, `unmap` returns its error and
  -- leaves the region with a count of 0; the next `unmap` of that region returns 0 and leaves it
  -- with a count of 2^64 - 1.
  pub unmap-wraps :
      (s : Cm bm kernel) (id errsv : ℕ) (region : CmRegion)
      → lookup id s.regions ≡ some region
      → region.mapcount ≡ 1
      → kernel.remove s.trace region.segid ≡ some errsv
      → (t : Cm bm kernel) × (u : Cm bm kernel) × (unmap bm kernel s id ≡ some (errsv, t))
        × (mapcount_of t.regions id ≡ 0)
        × (unmap bm kernel t id ≡ some (0, u))
        × (mapcount_of u.regions id ≡ u64 - 1)
  unfolding unmap drop_region
  unmap-wraps s id errsv region found last fails =
      let region0 : CmRegion = record region { mapcount = sub64 region.mapcount 1 } in
      let t : Cm bm kernel =
        emit (record s { regions = insert id region0 s.regions }) (xpmem_remove region.segid) in
      let region1 : CmRegion = record region0 { mapcount = sub64 region0.mapcount 1 } in
      let u : Cm bm kernel = record t { regions = insert id region1 t.regions } in
      let zero : region0.mapcount ≡ 0 = ground (arith, last) in
      let below : ltb 0 region0.mapcount ≡ false = ground (arith, zero) in
      let above : ltb 0 region1.mapcount ≡ true = ground (arith, zero) in
      let here = lookup-insert_same id region0 s.regions in
      (
        t,
        u,
        rw (found, below, unmap) (rw (fails, drop_region) refl),
        rw (here) zero,
        rw (here, above, unmap) refl,
        rw (lookup-insert_same id region1 t.regions) (ground (arith, zero)),
      )
