-- ===== src/Demo/Tests.antt =====
-- Runs of the demo buffer manager on small inputs.
pub mod Pages
pub mod Files
mod Backed
use dasim.Base.{
  ℕ, zero, suc, ◌+◌, ◌*◌, ◌≤◌, ◌<◌, ◌≡◌, refl, List, [], ◌∷◌, Bool, true, false, Option, some, none,
  arith, ltb, if◌then◌else◌,
}
use dasim.Types.{
  page_size, Properties, AccessPattern, Bandwidth, Granularity, AvgLatency, TailLatency,
  Persistency, UnfixResult,
}
use dasim.Demo.Pte.{RegionPte}
use dasim.Demo.PageIo.{Os, Transfer, moved, OpenResult, opened, read_loop, write_loop}
use dasim.Demo.State.{DemoBufferManager, construct, pte_at, set_pte}
use dasim.Demo.State.Inv.{Inv}
use dasim.Demo.Paging.{unfix, swap_out_page_data}
use dasim.Demo.Regions.{allocate}
use dasim.Demo.History.{Reach, Step, here, next, allocates, unfixes, Reach-Inv, frames_exclusive}

-- All system calls succeed, and transfers are whole.
abbrev pub calm : Os
calm = record {
  pread = λ fd off n. moved n;
  pwrite = λ fd off n. moved n;
  create_file = λ id. opened (id + 10);
  open_file = λ id. none;
  truncate_fails = λ fd size. false;
  file_size = λ fd. none;
  reserve = λ size. 0x10000000;
}

abbrev pub volatile : Properties
volatile = record {
  access_pattern = AccessPattern.random;
  bandwidth = Bandwidth.low;
  granularity = Granularity.small;
  avg_latency = AvgLatency.low;
  tail_latency = TailLatency.low;
  persistency = Persistency.nonpersistent;
}

abbrev pub get_state {ℓ} :
    {A : Type ℓ} → Option (A × DemoBufferManager) → DemoBufferManager → DemoBufferManager
get_state none s = s
get_state (some (a, s')) s = s'

-- One page of RAM and two of swap; region 5 has two pages.
abbrev pub start : DemoBufferManager
start = construct 7 1 2

abbrev pub allocated : DemoBufferManager
unfolding allocate
allocated = elim (allocate calm start 5 (2 * page_size) volatile 0) [ none ↦ start | some r ↦ r.2 ]

abbrev pub faulted : DemoBufferManager
unfolding unfix
faulted = get_state (unfix calm allocated 5 0 true) allocated

-- The second fault pages the first page out.
abbrev pub faulted_twice : DemoBufferManager
faulted_twice = get_state (unfix calm faulted 5 page_size false) faulted

entries :
    (pte_at faulted_twice.regions 5 0 ≡ some (record { nr = 1; present = false; swap = true }))
    × (pte_at faulted_twice.regions 5 1 ≡ some (record { nr = 0; present = true; swap = false }))
unfolding allocate unfix pte_at construct write_loop read_loop set_pte swap_out_page_data
entries = (refl, refl)

allocated-Step : Step start allocated
unfolding allocate construct
allocated-Step = allocates calm 5 (2 * page_size) volatile 0 0 0x10000000 refl

faulted-Step : Step allocated faulted
unfolding allocate unfix construct set_pte
faulted-Step =
    unfixes calm 5 0 true
      (record { from = 0x10000000; size = page_size; mapping_changed = true; writeprotect = false })
      refl

faulted_twice-Step : Step faulted faulted_twice
unfolding allocate unfix pte_at construct write_loop read_loop set_pte swap_out_page_data
faulted_twice-Step =
    unfixes calm 5 page_size false
      (record {
        from = 0x10000000 + page_size;
        size = page_size;
        mapping_changed = true;
        writeprotect = false;
      })
      refl

pub faulted_reached : Reach (construct 7 1 2) faulted
faulted_reached = next (next here allocated-Step) faulted-Step

pub faulted_twice_reached : Reach (construct 7 1 2) faulted_twice
faulted_twice_reached = next (next (next here allocated-Step) faulted-Step) faulted_twice-Step

Reach-Inv_example : Inv 1 [] faulted_twice
Reach-Inv_example = Reach-Inv 7 1 2 faulted_twice_reached

frames_exclusive_example : (◌≡◌ {A = ℕ} 5 5) × (◌≡◌ {A = ℕ} 1 1) × (0 < 1)
unfolding allocate unfix pte_at construct write_loop read_loop set_pte swap_out_page_data
frames_exclusive_example =
    frames_exclusive 7 1 2 5 1 5 1 (record { nr = 0; present = true; swap = false })
      (record { nr = 0; present = true; swap = false }) faulted_twice_reached refl refl refl refl
      refl
