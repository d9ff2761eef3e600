-- ===== src/Demo/Backing/Forgotten.antt =====
-- A fault that forgets what a client wrote.
use dasim.Base.{
  ℕ, ◌+◌, ◌*◌, ◌/◌, ◌≡◌, ◌≢◌, ◌∙◌, refl, sym, ap, inl, inr, true, false, not, ◌&&◌, some, some_inj,
  [], if_true, ◌==◌, ne→==, ==_refl, ==→eq,
}
use dasim.Types.{page_size, UnfixResult}
use dasim.Demo.Pte.{RegionPte, make_swap}
use dasim.Demo.PageIo.{Os}
use dasim.Demo.State.{DemoBufferManager, is_anon}
use dasim.Demo.State.Slots.{pte_at-set_pte_self}
use dasim.Demo.State.Inv.{Inv, with_dirty, with_dirty-Inv}
use dasim.Demo.Paging.{unfix, swap_out_page}
use dasim.Demo.Paging.SwapOut.{SwapsOut, unwritten, swap_out_page-SwapsOut}
use dasim.Demo.Backing.{fd_of, content, view, PageAt}
use dasim.Demo.Backing.Places.{view-PageAt, fd_of-set_pte}
use dasim.Demo.Backing.Refinement.{unfix-with_dirty}

module _ {nr : ℕ} (os : Os) (t : DemoBufferManager) (v : Inv nr [] t) (id i fd : ℕ)
    (pte : RegionPte) (at : PageAt t.regions id i pte fd) (pers : fd ≢ t.swapfd)
    (present : pte.present ≡ true) (clean : (t.page_infos pte.nr).dirty ≡ false)
    (u : DemoBufferManager) (out : SwapsOut os t pte.nr u) where
  -- The page that is paged out is this one, and it gets its own place.
  at_region : (t.page_infos pte.nr).region_id ≡ id
  at_region = (v.backed id i pte at.entry present).of_region

  at_off : (t.page_infos pte.nr).off ≡ i
  at_off = (v.backed id i pte at.entry present).at_off

  same_fd : out.paged.region.swapfd ≡ fd
  unfolding fd_of
  same_fd =
      let found = rw at_region at out.paged.has_region in some_inj _ _ (rw (found) at at.backed_by)

  own_place : out.ix ≡ i
  unfolding is_anon
  own_place =
      let is : out.found.region ≡ out.paged.region =
        some_inj _ _ (sym out.found.has_region ∙ out.paged.has_region) in
      elim out.found.choice [
        | inl (anon, _) ↦ absurd (pers (sym same_fd ∙ ==→eq _ _ (rw is at anon)))
        | inr (_, at_i, _) ↦ at_i ∙ at_off
      ]

  unwritten_only :
      unwritten (record t { free_swap_entries = out.rest }) pte.nr out.ix out.paged.pte ≡ u
  unfolding is_anon
  unwritten_only =
      let skip : (not (out.paged.region.swapfd == t.swapfd) && not (t.page_infos pte.nr).dirty)
          ≡ true =
        rw (same_fd, ne→== fd t.swapfd pers, clean) refl in
      some_inj _ _ (sym (if_true _ _ _ skip) ∙ out.paged.written)

  dropped_files : u.files ≡ t.files
  dropped_files = sym (ap (λ (w : DemoBufferManager). w.files) unwritten_only)

  dropped-view : (k : ℕ) → view u id i k ≡ some (t.files fd (i * page_size + k))
  unfolding content make_swap
  dropped-view k =
      let swapped = make_swap out.paged.pte out.ix in
      let now : PageAt u.regions id i swapped fd =
        rw (← unwritten_only, at_region, at_off)
          (record {
            entry = pte_at-set_pte_self t.regions id i swapped pte at.entry;
            backed_by = fd_of-set_pte t.regions id i swapped id ∙ at.backed_by;
          }) in
      view-PageAt u id i k swapped fd now ∙ rw (dropped_files, own_place)

-- A fault for reading on a page of a persistent region that is present forgets that the page is
-- dirty: if its frame is the next to be paged out, nothing is written, and the page shows what its
-- file had, whatever was written to the page. This takes the frame invariant.
pub unfix-forgets :
    {nr : ℕ} (os : Os) (s : DemoBufferManager) (id off fd : ℕ) (pte : RegionPte) (res : UnfixResult)
    (s1 s2 : DemoBufferManager)
    → Inv nr [] s
    → PageAt s.regions id (off / page_size) pte fd
    → fd ≢ s.swapfd
    → pte.present ≡ true
    → unfix os s id off false ≡ some (res, s1)
    → swap_out_page os s1 ≡ some (pte.nr, s2)
    → (s2.files ≡ s.files)
      × ((k : ℕ)
          → view s2 id (off / page_size) k ≡ some (s.files fd ((off / page_size) * page_size + k)))
unfix-forgets {nr} os s id off fd pte res s1 s2 v at pers present e out =
    let t = with_dirty s pte.nr false in
    let same : t ≡ s1 = unfix-with_dirty os s id off false pte res s1 at.entry present e in
    let found = swap_out_page-SwapsOut os t pte.nr s2 (rw (← same) at out) in
    let i = off / page_size in
    let v1 = with_dirty-Inv s pte.nr false v in
    let clean : (t.page_infos pte.nr).dirty ≡ false = rw (==_refl pte.nr) in
    (
      dropped_files os t v1 id i fd pte at pers present clean s2 found,
      dropped-view os t v1 id i fd pte at pers present clean s2 found,
    )
