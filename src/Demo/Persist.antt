-- ===== src/Demo/Persist.antt =====
-- `can_persist` and `persist` of demo_buffer_manager.cc.
pub mod Safety
pub mod Written
use dasim.Base.{
  ℕ, zero, suc, ◌+◌, ◌-◌, ◌/◌, ◌%◌, ◌==◌, false, not, ◌||◌, Option, none, some, lookup, ltb,
  if◌then◌else◌, ◌>>=◌,
}
use dasim.Types.{page_size, enoent, einval, enotsup}
use dasim.Demo.Pte.{Region, get_pte, is_present, get_page_nr}
use dasim.Demo.PageIo.{Os}
use dasim.Demo.State.{DemoBufferManager, is_anon, update}
use dasim.Demo.Paging.{swap_out_page_data}

unfoldable pub can_persist : DemoBufferManager → ℕ → ℕ → ℕ → ℕ
unfolding is_anon
can_persist s id off size = elim (lookup id s.regions) [
  | none ↦ enoent
  | some region ↦
      if ltb region.size off || ltb (region.size - off) size
      then einval
      else if not (off % page_size == 0) || (not (size % page_size == 0) || size == 0)
      then einval
      else if is_anon s region
      then enotsup
      else 0
]

-- The body of the loop of `persist` for page `i`.
unfoldable pub persist_page : Os → Region → ℕ → DemoBufferManager → Option DemoBufferManager
unfolding get_pte is_present get_page_nr swap_out_page_data
persist_page os region i s = get_pte region i >>= λ pte.
    if not (is_present pte)
    then some s
    else (get_page_nr pte >>= λ page_nr.
        if not (s.page_infos page_nr).dirty
        then some s
        else (swap_out_page_data os s page_nr region.swapfd i >>= λ s'. some (record s' {
          page_infos =
              update s'.page_infos page_nr (record (s'.page_infos page_nr) { dirty = false });
        })))

-- `rounds` rounds of the loop, from page `i` on.
unfoldable pub persist_pages : Os → Region → ℕ → ℕ → DemoBufferManager → Option DemoBufferManager
unfolding persist_page
persist_pages os region zero i s = some s
persist_pages os region (suc rounds) i s = elim (persist_page os region i s) [
  | none ↦ none
  | some s' ↦ persist_pages os region rounds (i + 1) s'
]

-- The loop runs while i < nr_pages, from i = poff.
unfoldable pub persist : Os → DemoBufferManager → ℕ → ℕ → ℕ → Option DemoBufferManager
unfolding persist_pages
persist os s id off size = lookup id s.regions >>= λ region.
    persist_pages os region (size / page_size - off / page_size) (off / page_size) s
