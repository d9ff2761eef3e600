-- ===== src/Manager/Ops.antt =====
-- The operations of `client_manager` that calls of clients lead to. Each runs under its mutex.
use dasim.Base.{
  ℕ, zero, suc, ◌+◌, ◌==◌, true, false, not, ◌||◌, Option, none, some, lookup, insert, emplace,
  contains, insert_ordered, remove, ltb, if◌then◌else◌, add64, sub64, ◌/◌, ◌-◌, ◌>>=◌,
}
use dasim.Types.{Properties, AnchoredRegion, enoent, eexist, einval, page_size}
use dasim.Manager.Interface.{BufferManager}
use dasim.Manager.State.{
  Kernel, ClientManager, ClientRegionInfo, CmRegion, made, make_failed, xpmem_make, xpmem_remove,
  block_pfs, uffd_writeprotect, emit, register_userfaultfd,
}

module _ (bm : BufferManager) (kernel : Kernel) where
  abbrev pub Cm : Type 0
  Cm = ClientManager bm.State

  -- The end of `add_region`, with the segment made. A failure to register is only logged.
  unfoldable pub publish_region : Cm → ℕ → ℕ → ℕ → ℕ → ClientRegionInfo → ℕ × ClientRegionInfo × Cm
  unfolding register_userfaultfd
  publish_region s id addr size segid out =
      let s1 = (register_userfaultfd kernel s addr size).1 in
      (
        0,
        record { segid = segid; size = size },
        record s1 {
          regions =
              emplace id (record { addr = addr; size = size; segid = segid; mapcount = 1 })
                s1.regions;
          region_map = insert_ordered addr id s1.region_map;
        },
      )

  unfoldable pub add_region : Cm → ℕ → ℕ → ℕ → ClientRegionInfo → Option (ℕ × ClientRegionInfo × Cm)
  unfolding publish_region
  add_region s id addr size out =
      let s1 = emit s (xpmem_make addr size) in
      elim (kernel.make s.trace addr size) [
        | make_failed errsv ↦ bm.free s1.buffer_manager id >>= λ b.
            some (errsv, out, record s1 { buffer_manager = b })
        | made segid ↦ some (publish_region s1 id addr size segid out)
      ]

  -- What a local variable holds before it is written.
  abbrev pub no_region : AnchoredRegion
  no_region = record { addr = 0; size = 0 }

  unfoldable pub allocate :
      Cm → ℕ → ℕ → Properties → ClientRegionInfo → Option (ℕ × ClientRegionInfo × Cm)
  unfolding add_region
  allocate s id size properties out =
      if contains id s.regions
      then some (eexist, out, s)
      else let (found, _, b) = bm.get_anchored_region s.buffer_manager id no_region in
        if found == 0
        then some (eexist, out, record s { buffer_manager = b })
        else (bm.allocate b id size properties 0 >>= λ r.
            if not (r.0 == 0)
            then some (r.0, out, record s { buffer_manager = r.2 })
            else add_region (record s { buffer_manager = r.2 }) id r.1 size out)

  unfoldable pub anchor : Cm → ℕ → ℕ × Cm
  anchor s id =
      let (ret, b) = bm.anchor s.buffer_manager id in (ret, record s { buffer_manager = b })

  unfoldable pub unanchor : Cm → ℕ → Option (ℕ × Cm)
  unanchor s id =
      let (ret, b) = bm.unanchor s.buffer_manager id in
      if not (ret == 0)
      then some (ret, record s { buffer_manager = b })
      else if contains id s.regions
      then some (0, record s { buffer_manager = b })
      else (bm.free b id >>= λ b'. some (0, record s { buffer_manager = b' }))

  -- The second component is what `out` holds afterwards.
  unfoldable pub get_size : Cm → ℕ → ℕ → ℕ × ℕ × Cm
  get_size s id out = elim (lookup id s.regions) [
    | some region ↦ (0, region.size, s)
    | none ↦
        let (ret, result, b) = bm.get_anchored_region s.buffer_manager id no_region in
        let s' : Cm = record s { buffer_manager = b } in
        if not (ret == 0) then (ret, out, s') else (0, result.size, s')
  ]

  unfoldable pub map : Cm → ℕ → ClientRegionInfo → Option (ℕ × ClientRegionInfo × Cm)
  unfolding add_region
  map s id out = elim (lookup id s.regions) [
    | some region ↦ some (
      0,
      record { segid = region.segid; size = region.size },
      record s {
        regions = insert id (record region { mapcount = add64 region.mapcount 1 }) s.regions;
      },
    )
    | none ↦
        let (ret, result, b) = bm.get_anchored_region s.buffer_manager id no_region in
        let s' : Cm = record s { buffer_manager = b } in
        if not (ret == 0) then some (ret, out, s') else add_region s' id result.addr result.size out
  ]

  -- The end of `unmap`, with the counter at 0.
  unfoldable pub drop_region : Cm → ℕ → CmRegion → Option (ℕ × Cm)
  drop_region s id region =
      let s1 = emit s (xpmem_remove region.segid) in
      elim (kernel.remove s.trace region.segid) [
        | some errsv ↦ some (errsv, s1)
        | none ↦ bm.free s1.buffer_manager id >>= λ b. some (
          0,
          record s1 {
            region_map = remove region.addr s1.region_map;
            regions = remove id s1.regions;
            buffer_manager = b;
          },
        )
      ]

  unfoldable pub unmap : Cm → ℕ → Option (ℕ × Cm)
  unfolding drop_region
  unmap s id = elim (lookup id s.regions) [
    | none ↦ some (enoent, s)
    | some region ↦
        let left = sub64 region.mapcount 1 in
        let region' : CmRegion = record region { mapcount = left } in
        let s' : Cm = record s { regions = insert id region' s.regions } in
        if ltb 0 left then some (0, s') else drop_region s' id region'
  ]

  -- for (i = 0; i < size; i += 0x200000) with `rounds` rounds to go. A call that fails is only logged:
  -- the trace has it, and the kernel's `writeprotect_fails` says that it did nothing.
  unfoldable pub protect_pages : ℕ → ℕ → Cm → Cm
  protect_pages zero addr s = s
  protect_pages (suc rounds) addr s =
      protect_pages rounds (add64 addr page_size) (emit s (uffd_writeprotect addr page_size true))

  -- The loop runs size / 0x200000 times, rounded up.
  unfoldable pub persist : Cm → ℕ → ℕ → ℕ → Option (ℕ × Cm)
  unfolding protect_pages
  persist s id off size = elim (lookup id s.regions) [
    | none ↦ some (enoent, s)
    | some region ↦
        if ltb region.size off || ltb region.size (add64 off size)
        then some (einval, s)
        else let ret = bm.can_persist s.buffer_manager id off size in
          if not (ret == 0)
          then some (ret, s)
          else let blocked = emit s (block_pfs id true) in
            let protected =
              protect_pages ((size + (page_size - 1)) / page_size) (add64 region.addr off)
                blocked in
            (bm.persist protected.buffer_manager id off size >>= λ b.
            some (0, emit (record protected { buffer_manager = b }) (block_pfs id false)))
  ]

  unfoldable pub advise : Cm → ℕ → Properties → ℕ × Cm
  advise s id properties =
      let (ret, b) = bm.advise s.buffer_manager id properties in
      (ret, record s { buffer_manager = b })
