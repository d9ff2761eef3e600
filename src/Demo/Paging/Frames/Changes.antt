-- ===== src/Demo/Paging/Frames/Changes.antt =====
-- Which fields of the state the parts of a page fault change.
use dasim.Base.{ℕ, ◌*◌, some_inj, ◌≡◌, not, ◌&&◌, some, >>=-eq-some, inl, inr, Bool-cases}
use dasim.Types.{page_size}
use dasim.Demo.PageIo.{Os, read_loop, write_loop, page_fuel}
use dasim.Demo.State.{DemoBufferManager, is_anon}
use dasim.Demo.Paging.{swap_in_page, swap_out_page_data}
use dasim.Demo.Paging.SwapOut.{PagesOut, unwritten}

-- `swap_in_page` changes the temporary page and the free swap entries.
pub swap_in_page-eq :
    (os : Os) (s : DemoBufferManager) (fd ix : ℕ) (s' : DemoBufferManager)
    → swap_in_page os s fd ix ≡ some s'
    → s' ≡ record s { tmp_page = s'.tmp_page; free_swap_entries = s'.free_swap_entries }
unfolding swap_in_page
swap_in_page-eq os s fd ix s' e =
    let (tmp, _, k) =
      >>=-eq-some (read_loop os page_fuel fd (s.files fd) (ix * page_size) 0 s.tmp_page) _ e in
    rw (← some_inj _ _ k)

-- `swap_out_page_data` changes files.
pub swap_out_page_data-eq :
    (os : Os) (s : DemoBufferManager) (p fd ix : ℕ) (s' : DemoBufferManager)
    → swap_out_page_data os s p fd ix ≡ some s'
    → s' ≡ record s { files = s'.files }
unfolding swap_out_page_data
swap_out_page_data-eq os s p fd ix s' e =
    let (file, _, k) =
      >>=-eq-some (write_loop os page_fuel s.shm (p * page_size) fd (ix * page_size) 0 (s.files fd))
        _ e in
    rw (← some_inj _ _ k)

-- `page_out` changes the state as `unwritten` says, and files.
pub PagesOut-eq :
    (os : Os) (s : DemoBufferManager) (p ix : ℕ) (s' : DemoBufferManager)
    → (out : PagesOut os s p ix s') → s' ≡ record (unwritten s p ix out.pte) { files = s'.files }
PagesOut-eq os s p ix s' out =
    elim (Bool-cases (not (is_anon s out.region) && not (s.page_infos p).dirty)) [
      | inl clean ↦ rw (← some_inj (unwritten s p ix out.pte) s' (rw clean at out.written))
      | inr write ↦
          swap_out_page_data-eq os (unwritten s p ix out.pte) p out.region.swapfd ix s'
            (rw write at out.written)
    ]
