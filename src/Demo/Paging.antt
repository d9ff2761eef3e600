-- ===== src/Demo/Paging.antt =====
-- Page faults: `swap_in_page`, `find_swappable_page`, `swap_out_page_data`, `swap_out_page`,
-- `unfix` and `mark_dirty` of demo_buffer_manager.cc. `none` is a loop that does not end, or an
-- access that ends the process or is undefined.
pub mod SwapOut
pub mod Evicted
pub mod Mapped
pub mod Frames
pub mod Contents
pub mod Kept
use dasim.Base.{
  ℕ, zero, suc, ◌+◌, ◌-◌, ◌*◌, ◌/◌, ◌%◌, ◌==◌, Bool, true, false, not, ◌&&◌, ◌||◌, Option, none,
  some, List, [], ◌∷◌, ◌++◌, lookup, erase, if◌then◌else◌, add64, ◌>>=◌,
}
use dasim.Types.{page_size, UnfixResult, MarkDirtyResult}
use dasim.Demo.Pte.{
  RegionPte, Region, make_present, make_swap, is_present, is_swapped, get_page_nr, get_swap_ix,
  get_pte,
}
use dasim.Demo.PageIo.{Bytes, blit, Os, write_loop, read_loop, page_fuel}
use dasim.Demo.State.{DemoBufferManager, PageInfo, update, is_anon, pte_at, set_pte}

unfoldable pub swap_in_page : Os → DemoBufferManager → ℕ → ℕ → Option DemoBufferManager
swap_in_page os s swapfd swap_ix = do
  tmp ← read_loop os page_fuel swapfd (s.files swapfd) (swap_ix * page_size) 0 s.tmp_page
  some (record s {
    tmp_page = tmp;
    free_swap_entries =
        if swapfd == s.swapfd then swap_ix ∷ s.free_swap_entries else s.free_swap_entries;
  })

-- The loop of `find_swappable_page` over m_used_pages from the iterator on. It returns the page,
-- its swap index, and what it leaves of m_free_swap_entries.
unfoldable pub find_from : DemoBufferManager → List ℕ → Option (ℕ × ℕ × List ℕ)
unfolding is_anon
find_from s [] = none
find_from s (page_nr ∷ it) =
    let next = find_from s it in
    let page = s.page_infos page_nr in
    lookup page.region_id s.regions >>= λ region.
    if is_anon s region
    then elim s.free_swap_entries [ [] ↦ next | swap_ix ∷ rest ↦ some (page_nr, swap_ix, rest) ]
    else some (page_nr, page.off, s.free_swap_entries)

unfoldable pub find_swappable_page : DemoBufferManager → Option (ℕ × ℕ × DemoBufferManager)
unfolding find_from
find_swappable_page s = find_from s s.used_pages >>= λ found.
    some (found.0, found.1, record s { free_swap_entries = found.2 })

unfoldable pub swap_out_page_data : Os → DemoBufferManager → ℕ → ℕ → ℕ → Option DemoBufferManager
swap_out_page_data os s page_nr swapfd swap_ix = do
  file ←
      write_loop os page_fuel s.shm (page_nr * page_size) swapfd (swap_ix * page_size) 0
        (s.files swapfd)
  some (record s { files = update s.files swapfd file })

-- `swap_out_page` from the choice of the page on. madvise() drops the kernel's page table entries of
-- the mapping, which hold no data.
unfoldable pub page_out : Os → DemoBufferManager → ℕ → ℕ → Option DemoBufferManager
unfolding is_anon make_swap
page_out os s page_nr swap_ix = do
  let page = s.page_infos page_nr
  region ← lookup page.region_id s.regions
  pte ← get_pte region page.off
  let s' = record s {
    used_pages = erase page.used_pages_it s.used_pages;
    regions = set_pte s.regions page.region_id page.off (make_swap pte swap_ix);
  }
  if not (is_anon s region) && not page.dirty
      then some s'
      else swap_out_page_data os s' page_nr region.swapfd swap_ix

unfoldable pub swap_out_page : Os → DemoBufferManager → Option (ℕ × DemoBufferManager)
unfolding find_swappable_page page_out
swap_out_page os s = do
  (page_nr, swap_ix, s1) ← find_swappable_page s
  s2 ← page_out os s1 page_nr swap_ix
  some (page_nr, s2)

-- The page frame that `unfix` maps: a free one, or one that it pages out.
unfoldable pub take_page : Os → DemoBufferManager → Option (ℕ × DemoBufferManager)
unfolding swap_out_page
take_page os s = elim s.free_pages [
  | [] ↦ swap_out_page os s
  | page_nr ∷ rest ↦ some (page_nr, record s { free_pages = rest })
]

-- The end of `unfix`, from the insertion into m_used_pages on. The segment's address is mapped to
-- the frame by then, so memcpy() and memset() there write the frame.
unfoldable pub map_page :
    DemoBufferManager → Region → ℕ → ℕ → Bool → ℕ → Option (UnfixResult × DemoBufferManager)
unfolding is_swapped make_present pte_at
map_page s region id poff write page_nr = do
  pte ← pte_at s.regions id poff
  let swapped = is_swapped pte
  let dirty = if swapped then write else true
  let source = if swapped then s.tmp_page else (λ _. b'a')
  some (
    record {
      from = add64 region.addr (poff * page_size);
      size = page_size;
      mapping_changed = true;
      writeprotect = not dirty;
    },
    record s {
      used_pages = s.used_pages ++ page_nr ∷ [];
      page_infos =
          update s.page_infos page_nr
            (record { region_id = id; off = poff; used_pages_it = page_nr; dirty = dirty });
      shm = blit s.shm (page_nr * page_size) source 0 page_size;
      regions = set_pte s.regions id poff (make_present pte page_nr);
    },
  )

-- `unfix` where the entry is present.
unfoldable pub unfix_present :
    DemoBufferManager → Region → ℕ → Bool → RegionPte → Option (UnfixResult × DemoBufferManager)
unfolding get_page_nr
unfix_present s region poff write pte = do
  page_nr ← get_page_nr pte
  some (
    record {
      from = add64 region.addr (poff * page_size);
      size = page_size;
      mapping_changed = false;
      writeprotect = false;
    },
    record s {
      page_infos = update s.page_infos page_nr (record (s.page_infos page_nr) { dirty = write });
    },
  )

-- `unfix` where it is not.
unfoldable pub unfix_absent :
    Os
    → DemoBufferManager
    → Region
    → ℕ
    → ℕ
    → Bool
    → RegionPte
    → Option (UnfixResult × DemoBufferManager)
unfolding is_swapped get_swap_ix swap_in_page take_page map_page
unfix_absent os s region id poff write pte = do
  s1 ←
      if is_swapped pte
      then (get_swap_ix pte >>= λ swap_ix. swap_in_page os s region.swapfd swap_ix)
      else some s
  (page_nr, s2) ← take_page os s1
  map_page s2 region id poff write page_nr

unfoldable pub unfix :
    Os → DemoBufferManager → ℕ → ℕ → Bool → Option (UnfixResult × DemoBufferManager)
unfolding get_pte is_present unfix_present unfix_absent
unfix os s id off write = do
  region ← lookup id s.regions
  pte ← get_pte region (off / page_size)
  if is_present pte
      then unfix_present s region (off / page_size) write pte
      else unfix_absent os s region id (off / page_size) write pte

unfoldable pub mark_dirty : DemoBufferManager → ℕ → ℕ → Option (MarkDirtyResult × DemoBufferManager)
unfolding get_pte is_present get_page_nr
mark_dirty s id off = do
  region ← lookup id s.regions
  pte ← get_pte region (off / page_size)
  s' ←
      if is_present pte
      then (get_page_nr pte >>= λ page_nr. some (record s {
        page_infos = update s.page_infos page_nr (record (s.page_infos page_nr) { dirty = true });
      }))
      else some s
  some (
    record {
      from = add64 region.addr ((off / page_size) * page_size);
      size = page_size;
      writeunprotect = is_present pte;
    },
    s',
  )
