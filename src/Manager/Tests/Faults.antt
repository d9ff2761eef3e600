-- ===== src/Manager/Tests/Faults.antt =====
-- Faults and write-back on concrete states.
use dasim.Base.{
  ℕ, ◌+◌, ◌-◌, [], u64, ◌≤◌, ◌<◌, ◌≡◌, ◌≢◌, refl, true, false, some, none, List, ◌∷◌, ◌⊎◌, arith,
}
use dasim.Types.{page_size, einval}
use dasim.Demo.PageIo.{write_loop, init_pages}
use dasim.Demo.State.{construct, set_pte, pte_at}
use dasim.Demo.Regions.{get_anchored_region, free}
use dasim.Demo.Paging.{unfix}
use dasim.Demo.Tests.{start}
use dasim.Demo.Tests.Files.{durable}
use dasim.Manager.State.{Kernel, Event, uffd_wake, block_pfs}
use dasim.Manager.Ops.{Cm, allocate, unmap, persist, publish_region}
use dasim.Manager.Faults.{UffdMsg, find_region, handle_userfault}
use dasim.Manager.Addresses.{Indexed, find_region-finds, publish_region-Indexed}
use dasim.Manager.Brackets.{Tracking, handle_userfault-brackets}
use dasim.Manager.WriteBack.{protected_in, persist-protects}
use dasim.Manager.Wrapped.{unmap-wraps}
use dasim.Manager.Mapcount.{mapcount_of}
use dasim.Manager.Tests.{willing, Demo, idle, nothing, serving, here_5}

serving-Indexed : Indexed serving.regions serving.region_map
unfolding allocate construct get_anchored_region dasim.Demo.Regions.allocate
serving-Indexed = record {
  sorted = (λ k v found. absurd cc, tt);
  known = λ addr id found. (here_5, ground (arith, found), ground (arith, found));
  entered = λ id region found. ground (arith, found);
  sized = λ id region found. ground (arith, found);
  apart = λ id j r r' ne found found'. absurd (ground (arith, ne, found, found'));
}

find_region-finds_example :
    find_region Demo willing serving (0x10000000 + page_size) ≡ some (5, here_5)
unfolding allocate construct get_anchored_region dasim.Demo.Regions.allocate
find_region-finds_example =
    find_region-finds Demo willing serving 5 (0x10000000 + page_size) here_5 serving-Indexed refl
      (omega arith) (omega arith)

-- A first write to the first page of region 5.
abbrev write_fault : UffdMsg
write_fault = record {
  is_pagefault = true;
  address = 0x10000000;
  flag_wp = false;
  flag_minor = false;
  flag_write = true;
}

abbrev resolved : Cm Demo willing
unfolding handle_userfault
resolved = elim (handle_userfault Demo willing serving (some write_fault)) [
  | none ↦ serving
  | some s ↦ s
]

handle_userfault-brackets_example :
    (from : ℕ) × (n : ℕ) × (trace : List Event) × Tracking
      (block_pfs here_5.segid true ∷ serving.trace)
      trace
    × (resolved.trace ≡ uffd_wake from n ∷ block_pfs here_5.segid false ∷ trace)
unfolding allocate construct get_anchored_region handle_userfault find_region unfix set_pte pte_at
    dasim.Demo.Regions.allocate
handle_userfault-brackets_example =
    handle_userfault-brackets Demo willing serving resolved write_fault 5 here_5 refl refl refl

publish_region-Indexed_example :
    let s = (publish_region Demo willing serving 6 0x20000000 page_size 3 nothing).2 in
    Indexed s.regions s.region_map
unfolding allocate construct get_anchored_region dasim.Demo.Regions.allocate
publish_region-Indexed_example =
    publish_region-Indexed Demo willing serving 6 0x20000000 page_size 3 nothing serving-Indexed
      refl (omega arith) (λ j r found. ground (arith, found))

-- Region 6 is persistent.
abbrev keeping : Cm Demo willing
unfolding allocate
keeping = elim (allocate Demo willing idle 6 (page_size + page_size) durable nothing) [
  | none ↦ idle
  | some r ↦ r.2
]

abbrev persisted : Cm Demo willing
unfolding persist
persisted = elim (persist Demo willing keeping 6 page_size page_size) [
  | none ↦ keeping
  | some r ↦ r.1
]

persist-protects_example :
    ((◌≢◌ {A = ℕ} 0 0) × (persisted ≡ keeping))
    ⊎ ((◌≡◌ {A = ℕ} 0 0)
        × ((x : ℕ)
            → here_5.addr + page_size ≤ x
            → x < here_5.addr + page_size + page_size
            → protected_in willing x persisted.trace ≡ true))
unfolding allocate construct get_anchored_region persist init_pages write_loop
    dasim.Demo.Regions.allocate dasim.Demo.Persist.can_persist dasim.Demo.Persist.persist
persist-protects_example =
    persist-protects Demo willing (λ trace addr n. refl) keeping 6 page_size page_size here_5
      (0, persisted) refl (omega arith) (omega arith) refl

-- A kernel that removes no segment.
abbrev refusing : Kernel
refusing = record willing { remove = λ trace segid. some einval }

abbrev stuck : Cm Demo refusing
stuck = record {
  regions = (5, here_5) ∷ [];
  region_map = (here_5.addr, 5) ∷ [];
  buffer_manager = start;
  trace = [];
}

unmap-wraps_example :
    (t : Cm Demo refusing) × (u : Cm Demo refusing) × (unmap Demo refusing stuck 5
      ≡ some (einval, t))
    × (mapcount_of t.regions 5 ≡ 0)
    × (unmap Demo refusing t 5 ≡ some (0, u))
    × (mapcount_of u.regions 5 ≡ u64 - 1)
unmap-wraps_example = unmap-wraps Demo refusing stuck 5 einval here_5 refl refl refl
