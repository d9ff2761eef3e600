-- ===== src/Demo/Tests/Backed.antt =====
-- Faults that move pages between RAM and the swap file, and stores between them.
use dasim.Base.{
  Option, List, [], ◌∷◌, arith, refl, inr, ◌≤◌, ℕ, ◌≢◌, ◌+◌, ◌*◌, ◌/◌, ◌<◌, ◌≡◌, true, false, inl,
  ne→==, some, none,
}
use dasim.Types.{page_size, UnfixResult}
use dasim.Demo.Pte.{RegionPte, empty_pte}
use dasim.Demo.PageIo.{read_loop, write_loop, init_pages}
use dasim.Demo.State.{is_anon, DemoBufferManager, construct, pte_at, set_pte}
use dasim.Demo.State.Inv.{Inv}
use dasim.Demo.Paging.{swap_out_page, unfix, swap_out_page_data}
use dasim.Demo.Regions.{allocate}
use dasim.Demo.History.{Reach, Reach-Inv, here, next, allocates, unfixes}
use dasim.Demo.Tests.{
  volatile, calm, start, allocated, faulted, faulted_twice, get_state, allocated-Step,
  faulted_reached,
}
use dasim.Demo.Tests.Pages.{calm_moves}
use dasim.Demo.Tests.Files.{durable}
use dasim.Demo.Backing.Shown.{fill, allocate-Shows}
use dasim.Demo.Backing.NewRegion.{OpensFresh}
use dasim.Demo.Backing.{view, Backing, Everywhere, fd_of}
use dasim.Demo.Backing.Grown.{Grows, construct-Backing, grown-Backing}
use dasim.Demo.Backing.Use.{with_byte}
use dasim.Demo.Backing.Transparent.{unfix-Transparent}
use dasim.Demo.Backing.Memory.{Run, starts, faults, touches, stores, makes, Event, wrote, made}
use dasim.Demo.Backing.Forgotten.{unfix-forgets}
use dasim.Demo.Backing.Refinement.{Implements, Run-Implements}

allocated-Grows : Grows start 5 0x10000000 (2 * page_size) 7 false allocated
unfolding construct allocate
allocated-Grows = record {
  region = refl;
  others = λ j ne. rw (ne→== 5 j ne);
  swapfd = refl;
  infos = refl;
  free_swap = refl;
  shm = refl;
  files = λ fd' same. refl;
  own_file = inl (refl, refl);
}

allocated-Backing : Backing Everywhere allocated
allocated-Backing =
    grown-Backing start 5 0x10000000 (2 * page_size) 7 false allocated allocated-Grows
      (construct-Backing 7 1 2)

allocated-Inv : Inv 1 [] allocated
allocated-Inv = Reach-Inv 7 1 2 (next here allocated-Step)

first_result : UnfixResult
first_result = record {
  from = 0x10000000;
  size = page_size;
  mapping_changed = true;
  writeprotect = false;
}

-- The first fault, on page 0.
faulted_shows :
    ((id' i k : ℕ) → k < page_size → view faulted id' i k ≡ view allocated id' i k)
    × Backing Everywhere faulted
unfolding allocate unfix pte_at construct set_pte first_result
faulted_shows =
    unfix-Transparent calm allocated 5 0 true empty_pte first_result faulted allocated-Inv
      allocated-Backing (λ fd off n. refl) calm_moves refl refl refl

second_result : UnfixResult
second_result = record {
  from = 0x10000000 + page_size;
  size = page_size;
  mapping_changed = true;
  writeprotect = false;
}

-- The second fault pages page 0 out.
unfix-Transparent_example :
    ((id' i k : ℕ) → k < page_size → view faulted_twice id' i k ≡ view faulted id' i k)
    × Backing Everywhere faulted_twice
unfolding allocate unfix pte_at construct write_loop read_loop set_pte swap_out_page_data
    second_result
unfix-Transparent_example =
    unfix-Transparent calm faulted 5 page_size false empty_pte second_result faulted_twice
      (Reach-Inv 7 1 2 faulted_reached) faulted_shows.1 (λ fd off n. refl) calm_moves refl refl refl

kept_result : UnfixResult
kept_result = record {
  from = 0x10000000;
  size = page_size;
  mapping_changed = false;
  writeprotect = false;
}

-- From a new manager on: regions 6 and 7 are persistent, with descriptors 16 and 17, and region 5 is
-- not. Page 0 of region 5 faults twice, to write and to read; then a client writes 42 to its byte 3,
-- and it is paged out.
abbrev made_state : Option (ℕ × ℕ × DemoBufferManager) → DemoBufferManager
made_state none = start
made_state (some r) = r.2

abbrev with_6 : DemoBufferManager
unfolding allocate
with_6 = made_state (allocate calm start 6 page_size durable 0)

abbrev with_7 : DemoBufferManager
unfolding allocate
with_7 = made_state (allocate calm with_6 7 page_size durable 0)

abbrev with_5 : DemoBufferManager
unfolding allocate
with_5 = made_state (allocate calm with_7 5 (2 * page_size) volatile 0)

abbrev in_ram : DemoBufferManager
unfolding unfix
in_ram = get_state (unfix calm with_5 5 0 true) with_5

abbrev touched : DemoBufferManager
unfolding unfix
touched = get_state (unfix calm in_ram 5 0 false) in_ram

abbrev stored : DemoBufferManager
stored = with_byte touched 0 3 42

abbrev paged_out : DemoBufferManager
unfolding unfix
paged_out = get_state (unfix calm stored 5 page_size false) stored

abbrev events : List Event
events =
    wrote 5 0 3 42
    ∷ made 5 ((2 * page_size) / page_size) (fill volatile)
    ∷ made 7 (page_size / page_size) (fill durable)
    ∷ made 6 (page_size / page_size) (fill durable)
    ∷ []

fresh_6 : OpensFresh calm start 6
unfolding fd_of construct
fresh_6 fd e = (λ eq. ground (arith, e, eq), λ j f. ground (arith, f))

fresh_7 : OpensFresh calm with_6 7
unfolding fd_of construct allocate init_pages write_loop
fresh_7 fd e = (λ eq. ground (arith, e, eq), λ j f. ground (arith, e, f))

fresh_5 : OpensFresh calm with_7 5
unfolding fd_of construct allocate init_pages write_loop
fresh_5 fd e = (λ eq. ground (arith, e, eq), λ j f. ground (arith, e, f))

abbrev resident : RegionPte
resident = record { nr = 0; present = true; swap = false }

makes_all :
    Run start
      (made 5 ((2 * page_size) / page_size) (fill volatile)
        ∷ made 7 (page_size / page_size) (fill durable)
        ∷ made 6 (page_size / page_size) (fill durable)
        ∷ [])
      with_5
unfolding allocate construct write_loop init_pages
makes_all =
    makes calm 5 (2 * page_size) volatile 0 0x10000000 calm_moves
      (makes calm 7 page_size durable 0 0x10000000 calm_moves
        (makes calm 6 page_size durable 0 0x10000000 calm_moves starts fresh_6 refl) fresh_7 refl)
      fresh_5 refl

used : Run start events paged_out
unfolding allocate unfix pte_at construct write_loop read_loop init_pages set_pte swap_out_page_data
    fd_of first_result second_result kept_result
used =
    faults calm 5 page_size false empty_pte second_result (λ fd off n. refl) calm_moves
      (stores 5 0 3 42 resident 7
        (touches calm 5 0 false resident kept_result
          (faults calm 5 0 true empty_pte first_result (λ fd off n. refl) calm_moves makes_all refl
            refl refl)
          refl refl (inr (inr refl)) refl)
        (record { entry = refl; backed_by = refl }) refl (inr refl) (omega arith))
      refl refl refl

Run-Implements_example : Implements 1 start events paged_out
Run-Implements_example =
    Run-Implements start events paged_out (Reach-Inv 7 1 2 here) (construct-Backing 7 1 2) used

-- A persistent region beside region 5; its file has descriptor 16.
abbrev grown : DemoBufferManager
unfolding allocate
grown = elim (allocate calm allocated 6 page_size durable 0) [ none ↦ allocated | some r ↦ r.2 ]

opens_fresh : OpensFresh calm allocated 6
unfolding fd_of construct allocate
opens_fresh fd e = (λ eq. ground (arith, e, eq), λ j f. ground (arith, e, f))

allocate-Shows_example :
    Backing Everywhere grown
    × ((j i k : ℕ) → 6 ≢ j → view grown j i k ≡ view allocated j i k)
    × ((i k : ℕ)
        → i < page_size / page_size
        → k < page_size
        → view grown 6 i k ≡ some (fill durable))
    × ((i k : ℕ) → page_size / page_size ≤ i → view grown 6 i k ≡ none)
unfolding allocate construct write_loop init_pages
allocate-Shows_example =
    allocate-Shows calm allocated 6 page_size durable 0 (0, 0x10000000, grown) calm_moves
      opens_fresh allocated-Backing refl refl

-- A page of a persistent region that a client has written, a fault for reading on it, and the
-- search for a frame.
abbrev filed : DemoBufferManager
unfolding allocate
filed = elim (allocate calm start 6 page_size durable 0) [ none ↦ start | some r ↦ r.2 ]

abbrev written : DemoBufferManager
unfolding unfix
written = get_state (unfix calm filed 6 0 true) filed

abbrev read_again : DemoBufferManager
unfolding unfix
read_again = get_state (unfix calm written 6 0 false) written

abbrev taken_away : DemoBufferManager
unfolding swap_out_page
taken_away = get_state (swap_out_page calm read_again) read_again

written_reached : Reach (construct 7 1 2) written
unfolding allocate unfix pte_at construct set_pte write_loop read_loop init_pages first_result
written_reached =
    next (next here (allocates calm 6 page_size durable 0 0 0x10000000 refl))
      (unfixes calm 6 0 true first_result refl)

unfix-forgets_example :
    (taken_away.files ≡ written.files)
    × ((k : ℕ)
        → view taken_away 6 (0 / page_size) k
          ≡ some (written.files 16 ((0 / page_size) * page_size + k)))
unfolding allocate unfix pte_at construct set_pte write_loop read_loop init_pages swap_out_page
    swap_out_page_data kept_result fd_of is_anon
unfix-forgets_example =
    unfix-forgets calm written 6 0 16 (record { nr = 0; present = true; swap = false }) kept_result
      read_again taken_away (Reach-Inv 7 1 2 written_reached)
      (record { entry = refl; backed_by = refl }) (λ e. ground (arith, e)) refl refl refl
