-- ===== src/Demo/Regions.antt =====
-- The life of a region: `add_region`, `allocate`, `free`, `anchor`, `unanchor`,
-- `get_anchored_region` and the destructor of demo_buffer_manager.cc. An operation returns its
-- code and its output arguments beside the state; `none` is a write loop that does not end, or an
-- access that ends the process or is undefined.
pub mod Free
pub mod Allocated
pub mod Lifetime
use dasim.Base.{
  ℕ, ◌/◌, ◌%◌, ◌==◌, Bool, true, false, not, ◌&&◌, ◌||◌, Option, none, some, List, [], ◌∷◌, ◌++◌,
  Map, lookup, insert, emplace, remove, contains, erase, ltb, if◌then◌else◌, add64, sub64, ◌>>=◌,
}
use dasim.Types.{page_size, Properties, Persistency, AnchoredRegion, enoent, enomem, eexist, einval}
use dasim.Demo.Pte.{RegionPte, Region, new_region, is_present, is_swapped, get_page_nr, get_swap_ix}
use dasim.Demo.PageIo.{Os, OpenResult, opened, open_failed, init_pages}
use dasim.Demo.State.{DemoBufferManager, is_anon, update}
use dasim.Demo.Paging.{swap_out_page_data}

unfoldable pub add_region :
    Os → DemoBufferManager → ℕ → ℕ → ℕ → Bool → Bool → ℕ → ℕ × ℕ × DemoBufferManager
unfolding new_region
add_region os s id size swapfd persistent anchored addr_out =
    let addr = os.reserve size in
    if addr == 0 then (enomem, addr_out, s) else (
      0,
      addr,
      record s { regions = emplace id (new_region addr size swapfd persistent anchored) s.regions },
    )

abbrev pub is_persistent : Properties → Bool
is_persistent properties = elim properties.persistency [
  | Persistency.nonpersistent ↦ false
  | Persistency.persistent ↦ true
]

-- The last part of `allocate`, with the backing file open.
unfoldable pub add_new_region :
    Os → DemoBufferManager → ℕ → ℕ → ℕ → Bool → ℕ → Option (ℕ × ℕ × DemoBufferManager)
unfolding add_region
add_new_region os s id size swapfd persistent addr_out =
    let (ret, addr, s') = add_region os s id size swapfd persistent false addr_out in
    if not (ret == 0)
    then some (ret, addr, s')
    else if persistent
    then (init_pages os (size / page_size) 0 swapfd (s'.files swapfd) >>= λ file.
        some (0, addr, record s' { files = update s'.files swapfd file }))
    else some (0, addr, s')

-- The branch of `allocate` for a persistent region.
unfoldable pub allocate_file :
    Os → DemoBufferManager → ℕ → ℕ → ℕ → Option (ℕ × ℕ × DemoBufferManager)
unfolding add_new_region
allocate_file os s id size addr_out = elim (os.create_file id) [
  | open_failed errsv ↦ some (if errsv == eexist then eexist else enomem, addr_out, s)
  | opened swapfd ↦
      if os.truncate_fails swapfd size
      then some (enomem, addr_out, s)
      else add_new_region os s id size swapfd true addr_out
]

-- `size & PAGE_MASK` is the remainder by the page size.
unfoldable pub allocate :
    Os → DemoBufferManager → ℕ → ℕ → Properties → ℕ → Option (ℕ × ℕ × DemoBufferManager)
unfolding add_new_region allocate_file
allocate os s id size properties addr_out =
    if contains id s.regions
    then some (eexist, addr_out, s)
    else if size == 0 || not (size % page_size == 0)
    then some (einval, addr_out, s)
    else if is_persistent properties
    then allocate_file os s id size addr_out
    else if ltb s.nr_available_pages (size / page_size)
    then some (enomem, addr_out, s)
    else add_new_region os
        (record s { nr_available_pages = sub64 s.nr_available_pages (size / page_size) }) id size
        s.swapfd false addr_out

-- The body of the loop of `free`, for one entry of the region that is already out of m_regions.
unfoldable pub free_pte : Os → Region → RegionPte → DemoBufferManager → Option DemoBufferManager
unfolding is_present is_swapped get_page_nr get_swap_ix is_anon swap_out_page_data
free_pte os region pte s =
    if is_present pte
    then (get_page_nr pte >>= λ page_nr.
        let info = s.page_infos page_nr in
        let s' : DemoBufferManager = record s {
          used_pages = erase info.used_pages_it s.used_pages;
          free_pages = s.free_pages ++ page_nr ∷ [];
        } in
        if not (is_anon s region) && info.dirty
        then swap_out_page_data os s' page_nr region.swapfd info.off
        else some s')
    else if is_swapped pte && is_anon s region
    then (get_swap_ix pte >>= λ swap_ix.
        some (record s { free_swap_entries = swap_ix ∷ s.free_swap_entries }))
    else some s

unfoldable pub free_ptes :
    Os → Region → List RegionPte → DemoBufferManager → Option DemoBufferManager
unfolding free_pte
free_ptes os region [] s = some s
free_ptes os region (pte ∷ ptes) s = elim (free_pte os region pte s) [
  | none ↦ none
  | some s' ↦ free_ptes os region ptes s'
]

-- The file of a persistent region is unlinked and closed, which the answers of later calls show.
unfoldable pub free_region : Os → Region → DemoBufferManager → Option DemoBufferManager
unfolding free_ptes is_anon
free_region os region s = do
  s' ← free_ptes os region region.ptes s
  some (
      if is_anon s' region
      then record s' { nr_available_pages = add64 s'.nr_available_pages (region.size / page_size) }
      else s')

unfoldable pub free : Os → DemoBufferManager → ℕ → Option DemoBufferManager
unfolding free_region
free os s id = elim (lookup id s.regions) [
  | none ↦ some s
  | some region ↦
      if region.anchored
      then some s
      else free_region os region (record s { regions = remove id s.regions })
]

unfoldable pub anchor : DemoBufferManager → ℕ → ℕ × DemoBufferManager
unfolding is_anon
anchor s id = elim (lookup id s.regions) [
  | none ↦ (enoent, s)
  | some region ↦
      if is_anon s region
      then (einval, s)
      else (0, record s { regions = insert id (record region { anchored = true }) s.regions })
]

unfoldable pub unanchor : DemoBufferManager → ℕ → ℕ × DemoBufferManager
unanchor s id = elim (lookup id s.regions) [
  | none ↦ (enoent, s)
  | some region ↦
      (0, record s { regions = insert id (record region { anchored = false }) s.regions })
]

unfoldable pub get_anchored_region :
    Os → DemoBufferManager → ℕ → AnchoredRegion → ℕ × AnchoredRegion × DemoBufferManager
unfolding add_region
get_anchored_region os s id out = elim (lookup id s.regions) [
  | some region ↦ (0, record { addr = region.addr; size = region.size }, s)
  | none ↦ elim (os.open_file id) [
    | none ↦ (enoent, out, s)
    | some swapfd ↦ elim (os.file_size swapfd) [
      | none ↦ (enoent, out, s)
      | some size ↦
          let (ret, addr, s') = add_region os s id size swapfd true true out.addr in
          (ret, record { addr = addr; size = size }, s')
    ]
  ]
]

-- The loop of the destructor: dirty pages of persistent regions are written back.
unfoldable pub destroy_pages : Os → List ℕ → DemoBufferManager → Option DemoBufferManager
unfolding is_anon swap_out_page_data
destroy_pages os [] s = some s
destroy_pages os (page_nr ∷ pages) s =
    let page = s.page_infos page_nr in
    elim (lookup page.region_id s.regions) [
      | none ↦ none
      | some region ↦
          if not (is_anon s region) && page.dirty
          then elim (swap_out_page_data os s page_nr region.swapfd page.off) [
            | none ↦ none
            | some s' ↦ destroy_pages os pages s'
          ]
          else destroy_pages os pages s
    ]
