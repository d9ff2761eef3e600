-- ===== src/Demo/Tests/Files.antt =====
-- Transfers, allocation and write-back on concrete states.
use dasim.Base.{
  ℕ, ◌+◌, ◌*◌, ◌/◌, ◌%◌, ◌≤◌, ◌<◌, ◌≡◌, ◌≢◌, refl, true, false, some, none, [], ◌⊎◌, lookup, arith,
  if◌then◌else◌, ◌==◌,
}
use dasim.Types.{page_size, Properties, Persistency}
use dasim.Demo.Pte.{RegionPte, Region}
use dasim.Demo.PageIo.{Os, Bytes, blit, moved, read_loop, write_loop, page_fuel, init_pages}
use dasim.Demo.PageIo.Transfers.{write_loop_page, read_loop_page, read_loop_in_two, init_pages_lem}
use dasim.Demo.State.{DemoBufferManager, construct, zeros, pte_at, set_pte}
use dasim.Demo.Paging.{unfix, swap_out_page_data}
use dasim.Demo.Regions.{allocate, is_persistent}
use dasim.Demo.Regions.Allocated.{Added, allocate-Added}
use dasim.Demo.Persist.{persist}
use dasim.Demo.Persist.Written.{persist-writes, persist-skips}
use dasim.Demo.History.{Reach, here, next, allocates, unfixes, Reach-Inv}
use dasim.Demo.Tests.{calm, volatile, get_state, start, allocated}
use dasim.Demo.Tests.Pages.{calm_moves}

write_loop_page_example :
    write_loop calm page_fuel (λ k. k) page_size 9 0 0 zeros
    ≡ some (blit zeros 0 (λ k. k) page_size page_size)
write_loop_page_example = write_loop_page calm (λ k. k) zeros page_size 9 0 calm_moves

read_loop_page_example :
    read_loop calm page_fuel 9 (λ k. k) page_size 0 zeros
    ≡ some (blit zeros 0 (λ k. k) page_size page_size)
read_loop_page_example = read_loop_page calm 9 (λ k. k) zeros page_size (λ fd off n. refl)

-- A system whose first read() of a page stops after 512 bytes.
abbrev halting : Os
halting = record calm { pread = λ fd off n. moved (if n == page_size then 512 else n) }

read_loop_in_two_example :
    (out : Bytes) × (read_loop halting page_fuel 9 (λ k. k) 0 0 zeros ≡ some out)
    × (out 0 ≡ 0 + 512)
read_loop_in_two_example =
    read_loop_in_two halting 9 (λ k. k) zeros 0 512 (omega arith) (omega arith) refl refl

init_pages_lem_example :
    (out : Bytes) × (init_pages calm 2 0 9 zeros ≡ some out)
    × ((k : ℕ) → 0 * page_size ≤ k → k < (0 + 2) * page_size → out k ≡ b'A')
    × ((k : ℕ) → k < 0 * page_size → out k ≡ zeros k)
    × ((k : ℕ) → (0 + 2) * page_size ≤ k → out k ≡ zeros k)
init_pages_lem_example = init_pages_lem calm 9 calm_moves 2 0 zeros

allocate-Added_example :
    ((◌≢◌ {A = ℕ} 0 0) × (allocated.regions ≡ start.regions))
    ⊎ ((◌≡◌ {A = ℕ} 0 0)
        × (1 ≤ 2 * page_size)
        × ((2 * page_size) % page_size ≡ 0)
        × (lookup 5 start.regions ≡ none)
        × ((swapfd : ℕ) × Added start 5 0x10000000
              (2 * page_size)
              swapfd
              (is_persistent volatile)
              allocated)
        × (allocated.nr_available_pages
              + (if is_persistent volatile then 0 else (2 * page_size) / page_size)
            ≡ start.nr_available_pages))
unfolding allocate construct
allocate-Added_example =
    allocate-Added calm start 5 (2 * page_size) volatile 0 (0, 0x10000000, allocated) (omega arith)
      refl

-- A persistent region of two pages, and a write to its first page.
abbrev pub durable : Properties
durable = record volatile { persistency = Persistency.persistent }

abbrev stored : DemoBufferManager
unfolding allocate
stored = elim (allocate calm start 6 (2 * page_size) durable 0) [ none ↦ start | some r ↦ r.2 ]

abbrev dirtied : DemoBufferManager
unfolding unfix
dirtied = get_state (unfix calm stored 6 0 true) stored

abbrev resident : RegionPte
resident = record { nr = 0; present = true; swap = false }

abbrev region_6 : Region
unfolding allocate unfix construct
region_6 = elim (lookup 6 dirtied.regions) [
  | some region ↦ region
  | none ↦ record { addr = 0; size = 0; ptes = []; swapfd = 0; anchored = false }
]

abbrev cleaned : DemoBufferManager
unfolding persist
cleaned = elim (persist calm dirtied 6 0 (2 * page_size)) [ none ↦ dirtied | some s ↦ s ]

dirtied_reached : Reach (construct 7 1 2) dirtied
unfolding allocate unfix construct set_pte pte_at read_loop write_loop init_pages
dirtied_reached = next (next here (allocates calm 6 (2 * page_size) durable 0 0 0x10000000 refl)) (
    unfixes calm 6 0 true
      (record { from = 0x10000000; size = page_size; mapping_changed = true; writeprotect = false })
      refl)

persist-writes_example :
    ((k : ℕ)
      → k < page_size
      → cleaned.files region_6.swapfd (0 * page_size + k)
        ≡ dirtied.shm (resident.nr * page_size + k))
    × ((cleaned.page_infos resident.nr).dirty ≡ false)
unfolding allocate unfix construct set_pte pte_at read_loop write_loop init_pages persist
    swap_out_page_data
persist-writes_example =
    persist-writes calm dirtied 6 0 (2 * page_size) 0 region_6 resident cleaned
      (Reach-Inv 7 1 2 dirtied_reached) calm_moves refl (omega arith) (omega arith) refl refl refl
      refl

persist-skips_example : persist calm dirtied 6 page_size page_size ≡ some dirtied
unfolding allocate unfix construct set_pte pte_at read_loop write_loop init_pages
persist-skips_example = persist-skips calm dirtied 6 page_size page_size region_6 refl (omega arith)
