-- ===== src/Demo/Backing/Transparent.antt =====
-- A page fault is transparent: whatever it moves between RAM and files, every byte of every region
-- stays what it was.
use dasim.Base.{
  ℕ, ◌+◌, ◌*◌, ◌/◌, ◌<◌, ◌≡◌, ◌≢◌, ◌∙◌, sym, ap, inl, inr, Bool, true, false, some, some_inj, [],
  if◌then◌else◌, Bool-cases, arith,
}
use dasim.Types.{page_size, UnfixResult}
use dasim.Demo.Pte.{RegionPte, is_swapped}
use dasim.Demo.PageIo.{Os, Bytes}
use dasim.Demo.PageIo.Transfers.{WritesMove, ReadsWhole}
use dasim.Demo.State.{DemoBufferManager, pte_at}
use dasim.Demo.State.Inv.{Inv, same-slot}
use dasim.Demo.Paging.{map_page, unfix}
use dasim.Demo.Paging.Frames.{Takes, swapped_in-eq, take_page-Takes}
use dasim.Demo.Paging.Contents.{swapped_in-fills, take_page-tmp}
use dasim.Demo.Backing.{content, view, PageAt, Backing, Everywhere, Elsewhere}
use dasim.Demo.Backing.Places.{view-PageAt}
use dasim.Demo.Backing.SwapIn.{swapped_in-Backing}
use dasim.Demo.Backing.TakeFrame.{Taken, take_page-Taken}
use dasim.Demo.Backing.MapPage.{filled, filled-view_self, filled-view_other, filled-Backing}
use dasim.Demo.Backing.Fault.{Fault, unfix-Fault, present-Elsewhere}

module _ {nr : ℕ} (os : Os) (s : DemoBufferManager) (v : Inv nr [] s) (b : Backing Everywhere s)
    (reads : ReadsWhole os) (moves : WritesMove os) (id poff : ℕ) (write : Bool) (pte : RegionPte)
    (fd : ℕ) (at : PageAt s.regions id poff pte fd) (absent : pte.present ≡ false)
    (s' : DemoBufferManager) (fault : Fault os s id poff write pte fd s') where
  abbrev s1 : DemoBufferManager
  s1 = fault.s1

  abbrev t : DemoBufferManager
  t = fault.t

  same : s1 ≡ record s { tmp_page = s1.tmp_page; free_swap_entries = s1.free_swap_entries }
  same = swapped_in-eq os s fd pte s1 fault.swapped_in

  v1 : Inv nr [] s1
  v1 = rw same v

  at1 : PageAt s1.regions id poff pte fd
  at1 = rw same at

  view1 : (id' i' k : ℕ) → view s1 id' i' k ≡ view s id' i' k
  unfolding view content
  view1 id' i' k = ap (λ (u : DemoBufferManager). view u id' i' k) same

  swapfd1 : s1.swapfd ≡ s.swapfd
  swapfd1 = ap (λ (u : DemoBufferManager). u.swapfd) same

  taken : Taken (Elsewhere s.swapfd id poff fd) s1 t
  taken =
      take_page-Taken (Elsewhere s.swapfd id poff fd) os s1 v1
        (swapped_in-Backing s b id poff pte fd at absent os s1 fault.swapped_in) moves
        (λ id' i' pte' f present.
          present-Elsewhere s1 s.swapfd id poff pte fd id' i' pte' at1.entry absent f present)
        fault.p t fault.taken

  takes : Takes nr s1 fault.p t
  takes = take_page-Takes nr os s1 fault.p t v1 fault.taken

  at_t : PageAt t.regions id poff pte fd
  at_t = record {
    entry = takes.keeps id poff pte at1.entry absent;
    backed_by = taken.fds id ∙ at1.backed_by;
  }

  swapfd_t : t.swapfd ≡ s.swapfd
  swapfd_t = taken.swapfd ∙ swapfd1

  -- What the frame is filled with is what the page showed.
  abbrev source : Bytes
  source = if pte.swap then t.tmp_page else (λ _. b'a')

  source-content : (k : ℕ) → k < page_size → source k ≡ content s fd pte k
  unfolding content
  source-content k below = elim (Bool-cases pte.swap) [
    | inr fresh ↦ rw (fresh, absent)
    | inl swapped ↦
        rw (swapped, absent)
          (ap (λ (bytes : Bytes). bytes k) (take_page-tmp os s1 fault.p t fault.taken)
            ∙ swapped_in-fills os s fd pte s1 reads fault.swapped_in swapped k below)
  ]

  -- If the region is persistent, its file still has the page at its place.
  source-clean :
      fd ≢ t.swapfd
      → (if pte.swap then write else true) ≡ false
      → (k : ℕ) → k < page_size
      → t.files fd (poff * page_size + k) ≡ source k
  unfolding content
  source-clean pers clear k below =
      let swapped : pte.swap ≡ true = ground (arith, clear) in
      let pers' : fd ≢ s.swapfd = λ anon. pers (anon ∙ sym swapfd_t) in
      let home = b.home id poff pte fd tt at pers' absent swapped in
      let shown =
        sym (view-PageAt t id poff k pte fd at_t)
        ∙ taken.shows id poff k (inr pers') below
        ∙ view1 id poff k
        ∙ view-PageAt s id poff k pte fd at in
      let here : content t fd pte k ≡ t.files fd (pte.nr * page_size + k) = rw (absent, swapped) in
      ap (λ (n : ℕ). t.files fd (n * page_size + k)) (sym home)
      ∙ sym here
      ∙ some_inj _ _ shown
      ∙ sym (source-content k below)

  abbrev after : DemoBufferManager
  after =
      filled t fault.p takes.inv id poff (if pte.swap then write else true) source pte fd at_t
        absent (rw swapfd_t taken.backing) source-clean

  after-eq : after ≡ s'
  unfolding map_page is_swapped
  after-eq =
      ap (λ (u : UnfixResult × DemoBufferManager). u.1)
        (some_inj _ _ (rw (at_t.entry, map_page) at fault.mapped))

  fault-view : (id' i' k : ℕ) → k < page_size → view s' id' i' k ≡ view s id' i' k
  fault-view id' i' k below = rw (← after-eq) (elim (same-slot id poff id' i') [
    | inl (er, eo) ↦
        rw (← er, ← eo)
          (filled-view_self t fault.p takes.inv id poff _ source pte fd at_t absent
              (rw swapfd_t taken.backing) source-clean k below
            ∙ ap some (source-content k below)
            ∙ sym (view-PageAt s id poff k pte fd at))
    | inr other ↦
        filled-view_other t fault.p takes.inv id poff _ source pte fd at_t absent
          (rw swapfd_t taken.backing) source-clean id' i' k other below
        ∙ taken.shows id' i' k (inl other) below
        ∙ view1 id' i' k
  ])

  fault-Backing : Backing Everywhere s'
  fault-Backing = rw (← after-eq) (
      filled-Backing t fault.p takes.inv id poff _ source pte fd at_t absent
        (rw swapfd_t taken.backing) source-clean)

-- A fault on an absent page is transparent: when it is served, every byte of every page of every
-- region is what it was, wherever the fault moved pages, and the conditions for this hold again: the
-- pages own distinct pages of the files, none of them free, a persistent page that is out is at its
-- place in its file, and one that is in and clean is equal to it. This takes those conditions, the
-- frame invariant, reads of whole pages, and writes that succeed and move some of their bytes.
pub unfix-Transparent :
    {nr : ℕ} (os : Os) (s : DemoBufferManager) (id off : ℕ) (write : Bool) (pte : RegionPte)
    (res : UnfixResult) (s' : DemoBufferManager)
    → Inv nr [] s
    → Backing Everywhere s
    → ReadsWhole os
    → WritesMove os
    → pte_at s.regions id (off / page_size) ≡ some pte
    → pte.present ≡ false
    → unfix os s id off write ≡ some (res, s')
    → ((id' i k : ℕ) → k < page_size → view s' id' i k ≡ view s id' i k) × Backing Everywhere s'
unfix-Transparent os s id off write pte res s' v b reads moves f absent e =
    let (fd, at, fault) = unfix-Fault os s id off write pte res s' f absent e in
    let poff = off / page_size in
    (
      fault-view os s v b reads moves id poff write pte fd at absent s' fault,
      fault-Backing os s v b reads moves id poff write pte fd at absent s' fault,
    )
