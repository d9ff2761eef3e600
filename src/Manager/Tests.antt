-- ===== src/Manager/Tests.antt =====
-- Runs of the client manager over the demo buffer manager.
pub mod Faults
use dasim.Base.{
  ℕ, ◌+◌, ◌≤◌, ◌<◌, ◌≡◌, ◌≢◌, refl, Bool, true, false, Option, some, none, List, [], ◌∷◌, ◌⊎◌, inl,
  inr, lookup, insert, arith, if◌then◌else◌, ◌==◌, u64, Map,
}
use dasim.Types.{page_size}
use dasim.Demo.PageIo.{write_loop, read_loop, init_pages}
use dasim.Demo.State.{construct, set_pte, pte_at}
use dasim.Demo.Regions.{get_anchored_region, free}
use dasim.Demo.Instance.{demo_manager}
use dasim.Demo.Tests.{calm, volatile, start}
use dasim.Demo.Tests.Files.{durable}
use dasim.Manager.State.{
  Kernel, Event, CmRegion, ClientRegionInfo, ClientManager, made, xpmem_make, uffd_register,
  uffd_wake, block_pfs, emit,
}
use dasim.Manager.Interface.{BufferManager}
use dasim.Manager.Ops.{Cm, allocate, map, unmap, persist, publish_region}
use dasim.Manager.Faults.{UffdMsg, find_region, handle_userfault}
use dasim.Manager.Mapcount.{
  SetsErrno, Removes, Live, Outcome, Loses, mapcount_of, allocate-Outcome, map-Outcome, unmap-Loses,
}
use dasim.Manager.Addresses.{Indexed, find_region-finds, publish_region-Indexed}
use dasim.Manager.Brackets.{Tracking, handle_userfault-brackets}
use dasim.Manager.WriteBack.{protected_in, persist-protects}

-- Every call of the kernel succeeds.
abbrev pub willing : Kernel
willing = record {
  make = λ trace addr n. made addr;
  remove = λ trace segid. none;
  register_fails = λ trace addr n minor. false;
  writeprotect_fails = λ trace addr n protect. false;
}

pub willing_sets : SetsErrno willing
willing_sets trace addr n errsv e = absurd cc

pub willing-Removes : Removes willing
willing-Removes trace segid = refl

abbrev pub Demo : BufferManager
Demo = demo_manager calm

abbrev pub idle : Cm Demo willing
idle = record { regions = []; region_map = []; buffer_manager = start; trace = [] }

abbrev pub nothing : ClientRegionInfo
nothing = record { segid = 0; size = 0 }

-- Region 5, with two pages.
abbrev pub serving : Cm Demo willing
unfolding allocate
serving = elim (allocate Demo willing idle 5 (page_size + page_size) volatile nothing) [
  | none ↦ idle
  | some r ↦ r.2
]

abbrev pub here_5 : CmRegion
here_5 = record {
  addr = 0x10000000;
  size = page_size + page_size;
  segid = 0x10000000;
  mapcount = 1;
}

abbrev about_5 : ClientRegionInfo
about_5 = record { segid = 0x10000000; size = page_size + page_size }

allocate-Outcome_example : Outcome idle.regions 5 0 serving.regions
unfolding allocate construct get_anchored_region dasim.Demo.Regions.allocate
allocate-Outcome_example =
    allocate-Outcome Demo willing willing_sets idle 5 (page_size + page_size) volatile nothing
      (0, about_5, serving) (λ id region found. absurd cc) refl

pub serving-Live : Live serving.regions
unfolding allocate construct get_anchored_region dasim.Demo.Regions.allocate
serving-Live id region found = ground (arith, found)

abbrev shared : Cm Demo willing
unfolding map
shared = elim (map Demo willing serving 5 nothing) [ none ↦ serving | some r ↦ r.2 ]

map-Outcome_example : Outcome serving.regions 5 0 shared.regions
unfolding allocate construct map get_anchored_region dasim.Demo.Regions.allocate
map-Outcome_example =
    map-Outcome Demo willing willing_sets serving 5 nothing (0, about_5, shared) serving-Live
      (omega arith) refl

abbrev ended : Cm Demo willing
unfolding unmap
ended = elim (unmap Demo willing serving 5) [ none ↦ serving | some r ↦ r.1 ]

unmap-Loses_example : (◌≡◌ {A = ℕ} 0 0) × Loses serving.regions 5 ended.regions
unfolding allocate construct unmap get_anchored_region free dasim.Demo.Regions.allocate
unmap-Loses_example =
    unmap-Loses Demo willing willing-Removes serving 5 (0, ended) serving-Live (omega arith)
      (omega arith) refl
