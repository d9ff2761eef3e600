-- ===== src/Demo/Backing/Memory.antt =====
-- The memory that clients see, and the runs of the manager that change it or leave it.
use dasim.Base.{
  lookup, ltb, ◌≢◌, none, ℕ, ◌/◌, ◌<◌, ◌≡◌, ap, ◌⊎◌, Bool, true, false, ◌&&◌, Option, some, List,
  [], ◌∷◌, if◌then◌else◌, ◌==◌,
}
use dasim.Types.{Properties, page_size, UnfixResult, MarkDirtyResult}
use dasim.Demo.Pte.{RegionPte}
use dasim.Demo.PageIo.{Os}
use dasim.Demo.PageIo.Transfers.{WritesMove, ReadsWhole}
use dasim.Demo.State.{DemoBufferManager, pte_at}
use dasim.Demo.Paging.{unfix, mark_dirty}
use dasim.Demo.Backing.{fd_of, PageAt}
use dasim.Demo.Backing.NewRegion.{OpensFresh}
use dasim.Demo.Backing.Shown.{fill}
use dasim.Demo.Regions.{allocate, free}
use dasim.Demo.Pte.{Region}
use dasim.Demo.Persist.{persist}
use dasim.Demo.Backing.Use.{with_byte}

-- What changes the memory that clients see: a client writes `x` to byte `k` of page `i` of region
-- `id`, region `id` is made with `n` pages full of `x`, or region `id` is freed.
pub data Event : Type 0 where
  wrote : ℕ → ℕ → ℕ → ℕ → Event
  made : ℕ → ℕ → ℕ → Event
  freed : ℕ → Event

-- The memory that clients see, a byte for a region, a page and an offset; `none` is no page.
abbrev pub Memory : Type 0
Memory = ℕ → ℕ → ℕ → Option ℕ

abbrev pub happen : Event → Memory → Memory
happen (wrote id i k x) m id' i' k' =
    if (id == id') && ((i == i') && (k == k')) then some x else m id' i' k'
happen (made id n x) m id' i' k' =
    if id == id' then (if ltb i' n then some x else none) else m id' i' k'
happen (freed id) m id' i' k' = if id == id' then none else m id' i' k'

-- The memory `m` after the events, the last of which comes first.
abbrev pub recall : List Event → Memory → Memory
recall [] m = m
recall (event ∷ events) m = happen event (recall events m)

-- What the manager and its clients do, one step after the other, from the state `s` on. Each step has
-- answers of the operating system of its own.
-- * `faults`: `unfix` of a page that is absent; reads are whole, writes succeed and move bytes.
-- * `touches`: `unfix` of a page that is present, unless it is a fault to read a dirty page of a
--   persistent region. That is not among the steps: see Demo/Backing/Forgotten.
-- * `marks`: `mark_dirty`.
-- * `stores`: a client writes a byte of a page that is present, and dirty if its region is
--   persistent. The kernel's write protection keeps it from clean pages: it faults first.
-- * `persists`: `persist` for a persistent region; writes succeed and move bytes.
-- * `makes`: `allocate` succeeds; the descriptor of the file, if any, is not in use.
-- * `frees`: `free` of a region that is not anchored.
pub data Run (s : DemoBufferManager) : List Event → DemoBufferManager → Type 0 where
  starts : Run s [] s
  faults :
      (os : Os) (id off : ℕ) (write : Bool) (pte : RegionPte) (res : UnfixResult) {ws : List Event}
      {t u : DemoBufferManager}
      → ReadsWhole os
      → WritesMove os
      → Run s ws t
      → pte_at t.regions id (off / page_size) ≡ some pte
      → pte.present ≡ false
      → unfix os t id off write ≡ some (res, u)
      → Run s ws u
  touches :
      (os : Os) (id off : ℕ) (write : Bool) (pte : RegionPte) (res : UnfixResult) {ws : List Event}
      {t u : DemoBufferManager}
      → Run s ws t
      → pte_at t.regions id (off / page_size) ≡ some pte
      → pte.present ≡ true
      → (write ≡ true)
        ⊎ (((t.page_infos pte.nr).dirty ≡ false) ⊎ (fd_of t.regions id ≡ some t.swapfd))
      → unfix os t id off write ≡ some (res, u)
      → Run s ws u
  marks :
      (id off : ℕ) (res : MarkDirtyResult) {ws : List Event} {t u : DemoBufferManager}
      → Run s ws t
      → mark_dirty t id off ≡ some (res, u)
      → Run s ws u
  stores :
      (id i k x : ℕ) (pte : RegionPte) (fd : ℕ) {ws : List Event} {t : DemoBufferManager}
      → Run s ws t
      → PageAt t.regions id i pte fd
      → pte.present ≡ true
      → ((t.page_infos pte.nr).dirty ≡ true) ⊎ (fd_of t.regions id ≡ some t.swapfd)
      → k < page_size
      → Run s (wrote id i k x ∷ ws) (with_byte t pte.nr k x)
  persists :
      (os : Os) (id off size fd : ℕ) {ws : List Event} {t u : DemoBufferManager}
      → WritesMove os
      → Run s ws t
      → fd_of t.regions id ≡ some fd
      → fd ≢ t.swapfd
      → persist os t id off size ≡ some u
      → Run s ws u
  makes :
      (os : Os) (id size : ℕ) (properties : Properties) (out addr : ℕ) {ws : List Event}
      {t u : DemoBufferManager}
      → WritesMove os
      → Run s ws t
      → OpensFresh os t id
      → allocate os t id size properties out ≡ some (0, addr, u)
      → Run s (made id (size / page_size) (fill properties) ∷ ws) u
  frees :
      (os : Os) (id : ℕ) (region : Region) {ws : List Event} {t u : DemoBufferManager}
      → WritesMove os
      → Run s ws t
      → lookup id t.regions ≡ some region
      → region.anchored ≡ false
      → free os t id ≡ some u
      → Run s (freed id ∷ ws) u

pub happen-cong :
    (event : Event) (m m' : Memory) (id i k : ℕ)
    → m id i k ≡ m' id i k
    → happen event m id i k ≡ happen event m' id i k
happen-cong (wrote id i k x) m m' id' i' k' same =
    ap (λ (old : Option ℕ). if (id == id') && ((i == i') && (k == k')) then some x else old) same
happen-cong (made id n x) m m' id' i' k' same =
    ap (λ (old : Option ℕ). if id == id' then (if ltb i' n then some x else none) else old) same
happen-cong (freed id) m m' id' i' k' same =
    ap (λ (old : Option ℕ). if id == id' then none else old) same
