-- ===== src/Library/Tests.antt =====
-- Runs of the library against the manager's side of a client.
use dasim.Base.{
  ℕ, ◌+◌, ◌^◌, ◌%◌, ◌≤◌, ◌<◌, ◌≡◌, ◌≢◌, refl, true, false, ◌⊎◌, Option, none, some, [], lookup,
  arith, ◌>>=◌,
}
use dasim.Types.{einval, page_size, enomem}
use dasim.Calls.{CallParams, CallResult, Payload}
use dasim.Demo.State.{construct}
use dasim.Demo.Tests.{volatile}
use dasim.Demo.Regions.{get_anchored_region}
use dasim.Manager.Tests.{willing, Demo, idle, serving}
use dasim.Manager.Ops.{allocate, get_size, map}
use dasim.Client.{Client, Server, handle_call}
use dasim.Library.{
  Library, Platform, Handle, reserved, not_reserved, connected, call_manager, alloc, word,
  mk_invalid_handle,
}
use dasim.Library.Outcomes.{
  Reserves, Outcome, damemory_alloc-Outcome, damemory_map-Outcome, get_size-through_int,
}

-- One area can be mapped, and nothing else fails.
abbrev pub small : Platform
small = record {
  reserve = λ areas n. elim (lookup 0x40000000 areas) [
    | none ↦ reserved 0x40000000
    | some _ ↦ not_reserved enomem
  ];
  munmap_fails = λ addr. false;
  get = λ segid. some (segid + 1);
  attach_fails = λ addr. false;
  detach_fails = λ addr. false;
  release_fails = λ apid. false;
  connects = true;
  unset = 0;
}

small-Reserves : Reserves small
small-Reserves = record {
  fresh = λ areas n addr e. ground (arith, e);
  sets = λ areas n error e. ground (arith, e);
}

-- The manager answers each call at once.
unfoldable pub answers :
    Server Demo willing → CallParams → Option (CallResult × Server Demo willing)
unfolding handle_call
answers s params = handle_call Demo willing s.client s.manager params >>= λ r.
    some (record { error = r.0; payload = r.1 }, r.2)

abbrev pub empty : Client
empty = record { mappings = []; state = 1 }

abbrev pub before : Library (Server Demo willing)
before = record {
  connection = connected;
  errno = 0;
  areas = [];
  server = record { client = empty; manager = idle };
}

abbrev handle : Handle
handle = record {
  addr = 0x40000000;
  size = page_size + page_size;
  segid = 0x10000000;
  apid = 0x10000001;
}

abbrev after : Library (Server Demo willing)
unfolding alloc
after = elim (alloc answers small before 5 (page_size + page_size) volatile) [
  | none ↦ before
  | some r ↦ r.1
]

damemory_alloc-Outcome_example :
    ((((page_size + page_size) ≡ 0) ⊎ ((page_size + page_size) % page_size ≢ 0))
      × (◌≡◌ {A = Handle × Library (Server Demo willing)}
          (handle, after)
          (mk_invalid_handle, record before { errno = einval })))
    ⊎ (((page_size + page_size) ≢ 0)
        × ((page_size + page_size) % page_size ≡ 0)
        × Outcome before.areas (page_size + page_size) handle after.errno after.areas)
unfolding alloc allocate construct get_anchored_region dasim.Demo.Regions.allocate answers
damemory_alloc-Outcome_example =
    damemory_alloc-Outcome answers small small-Reserves (λ addr. refl) before 5
      (page_size + page_size) volatile (handle, after) refl

-- The same region, for a library that has not mapped it.
abbrev other : Library (Server Demo willing)
other = record before { server = record { client = empty; manager = serving } }

abbrev mapped : Library (Server Demo willing)
unfolding dasim.Library.map
mapped = elim (dasim.Library.map answers small other 5) [ none ↦ other | some r ↦ r.1 ]

damemory_map-Outcome_example : (n : ℕ) × Outcome other.areas n handle mapped.errno mapped.areas
unfolding dasim.Library.map allocate construct get_anchored_region dasim.Demo.Regions.allocate
    get_size map answers
damemory_map-Outcome_example =
    damemory_map-Outcome answers small small-Reserves (λ addr. refl) other 5 (handle, mapped) refl

-- A manager that knows a region of 3 GiB.
abbrev knows : ℕ → CallParams → Option (CallResult × ℕ)
knows n params = some (record { error = 0; payload = Payload.size n }, n)

abbrev asking : Library ℕ
asking = record { connection = connected; errno = 0; areas = []; server = 0xC0000000 }

get_size-through_int_example :
    (out : ℕ) × (dasim.Library.get_size knows small asking 5 ≡ some (out, asking))
    × (((0xC0000000 < 2 ^ 31) × (out ≡ 0xC0000000)) ⊎ ((2 ^ 31 ≤ 0xC0000000) × (out ≢ 0xC0000000)))
unfolding call_manager
get_size-through_int_example =
    get_size-through_int knows small asking 5 0xC0000000
      (record { error = 0; payload = Payload.size 0xC0000000 }, asking) refl refl refl (omega arith)
