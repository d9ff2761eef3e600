-- ===== src/Demo/Tests/Pages.antt =====
-- Faults on concrete states.
use dasim.Base.{
  ℕ, ◌+◌, ◌*◌, ◌<◌, ◌⊎◌, ◌≡◌, refl, true, false, lookup, arith, ◌/◌, add64, not, ◌&&◌,
  if◌then◌else◌, [], some, none,
}
use dasim.Types.{page_size, UnfixResult}
use dasim.Demo.Pte.{RegionPte, Region, make_present, make_swap}
use dasim.Demo.PageIo.{read_loop, write_loop}
use dasim.Demo.PageIo.Transfers.{WritesMove}
use dasim.Demo.State.{DemoBufferManager, construct, pte_at, set_pte, is_anon}
use dasim.Demo.Paging.{unfix, swap_out_page, swap_out_page_data}
use dasim.Demo.Paging.Contents.{unfix-fills}
use dasim.Demo.Paging.Kept.{swap_out_page-keeps}
use dasim.Demo.Regions.{allocate}
use dasim.Demo.History.{Reach-Inv}
use dasim.Demo.Tests.{calm, get_state, faulted, faulted_twice, faulted_twice_reached}

abbrev pub calm_moves : WritesMove calm
calm_moves fd off n positive = (n, refl, positive, omega arith)

-- Region 5 after two faults, and the entry of its first page, which is swapped out.
abbrev region_5 : Region
unfolding allocate unfix construct
region_5 = elim (lookup 5 faulted_twice.regions) [
  | some region ↦ region
  | none ↦ record { addr = 0; size = 0; ptes = []; swapfd = 0; anchored = false }
]

abbrev swapped : RegionPte
swapped = record { nr = 1; present = false; swap = true }

-- The first page is swapped in again.
abbrev faulted_thrice : DemoBufferManager
unfolding unfix
faulted_thrice = get_state (unfix calm faulted_twice 5 0 false) faulted_twice

abbrev protected : UnfixResult
protected = record {
  from = 0x10000000;
  size = page_size;
  mapping_changed = true;
  writeprotect = true;
}

unfix-fills_example :
    (p : ℕ) × (pte_at faulted_thrice.regions 5 (0 / page_size) ≡ some (make_present swapped p))
    × ((k : ℕ)
        → k < page_size
        → faulted_thrice.shm (p * page_size + k)
          ≡ (if true then faulted_twice.files region_5.swapfd (1 * page_size + k) else b'a'))
    × (protected ≡ record {
      from = add64 region_5.addr ((0 / page_size) * page_size);
      size = page_size;
      mapping_changed = true;
      writeprotect = true && not false;
    })
unfolding allocate unfix pte_at construct write_loop read_loop set_pte swap_out_page_data
unfix-fills_example =
    unfix-fills calm faulted_twice 5 0 false region_5 swapped protected faulted_thrice
      (Reach-Inv 7 1 2 faulted_twice_reached) (λ fd off n. refl) refl refl refl refl

-- The frame that is taken from the first page, and the state then.
abbrev swapped_out : DemoBufferManager
unfolding swap_out_page
swapped_out = get_state (swap_out_page calm faulted) faulted

abbrev region_5_before : Region
unfolding allocate unfix construct
region_5_before = elim (lookup 5 faulted.regions) [
  | some region ↦ region
  | none ↦ record { addr = 0; size = 0; ptes = []; swapfd = 0; anchored = false }
]

swap_out_page-keeps_example :
    (ix : ℕ) × (pte : RegionPte) × (pte_at swapped_out.regions
        (faulted.page_infos 0).region_id
        (faulted.page_infos 0).off
      ≡ some (make_swap pte ix))
    × (((is_anon faulted region_5_before ≡ false)
          × ((faulted.page_infos 0).dirty ≡ false)
          × (ix ≡ (faulted.page_infos 0).off)
          × (swapped_out.files ≡ faulted.files))
        ⊎ (((is_anon faulted region_5_before ≡ true) ⊎ ((faulted.page_infos 0).dirty ≡ true))
            × ((k : ℕ)
                → k < page_size
                → swapped_out.files region_5_before.swapfd (ix * page_size + k)
                  ≡ faulted.shm (0 * page_size + k))))
unfolding allocate unfix pte_at construct write_loop set_pte swap_out_page_data swap_out_page
    is_anon
swap_out_page-keeps_example =
    swap_out_page-keeps calm faulted 0 region_5_before swapped_out calm_moves refl refl
