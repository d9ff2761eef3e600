-- ===== src/Demo/Paging/Kept.antt =====
-- Where the bytes of a page go that is swapped out.
use dasim.Base.{
  ℕ, ◌+◌, ◌-◌, ◌*◌, ◌<◌, ◌≡◌, ◌∙◌, sym, ap, ==_refl, refl, if_true, Bool, Bool-cases, true, false,
  not, ◌&&◌, some, some_inj, if_false, lookup, >>=-eq-some, arith, inl, inr, ◌⊎◌,
}
use dasim.Types.{page_size}
use dasim.Demo.Pte.{RegionPte, Region, make_swap}
use dasim.Demo.PageIo.{Os, Bytes, blit, write_loop, page_fuel}
use dasim.Demo.PageIo.Transfers.{WritesMove, write_loop_page}
use dasim.Demo.State.{DemoBufferManager, is_anon, pte_at}
use dasim.Demo.State.Slots.{pte_at-set_pte_self}
use dasim.Demo.Paging.{swap_out_page_data, swap_out_page}
use dasim.Demo.Paging.SwapOut.{SwapsOut, unwritten, swap_out_page-SwapsOut}
use dasim.Demo.Paging.Frames.{PagesOut-eq}

pub blit_at :
    (dst src : Bytes) (to from n k : ℕ) → k < n → blit dst to src from n (to + k) ≡ src (from + k)
blit_at dst src to from n k below =
    let at : from + ((to + k) - to) ≡ from + k = omega arith in ground (arith, below, ap src at)

pub swap_out_page_data-writes :
    (os : Os) (s : DemoBufferManager) (p fd ix : ℕ) (s' : DemoBufferManager)
    → WritesMove os
    → swap_out_page_data os s p fd ix ≡ some s'
    → (k : ℕ) → k < page_size
    → s'.files fd (ix * page_size + k) ≡ s.shm (p * page_size + k)
unfolding swap_out_page_data
swap_out_page_data-writes os s p fd ix s' moves e k below =
    let (file, done, e1) =
      >>=-eq-some (write_loop os page_fuel s.shm (p * page_size) fd (ix * page_size) 0 (s.files fd))
        _ e in
    let is = some_inj _ _ (
      sym done ∙ write_loop_page os s.shm (s.files fd) (p * page_size) fd (ix * page_size) moves) in
    rw (← some_inj _ _ e1, is, ==_refl fd)
      (blit_at (s.files fd) s.shm (ix * page_size) (p * page_size) page_size k below)

-- Whether `swap_out_page` skips the write.
clean_page : (anon dirty : Bool) → (not anon && not dirty) ≡ true → (anon ≡ false) × (dirty ≡ false)
clean_page anon dirty clean = (ground (arith, clean), ground (arith, clean))

written_page :
    (anon dirty : Bool) → (not anon && not dirty) ≡ false → (anon ≡ true) ⊎ (dirty ≡ true)
written_page true dirty write = inl refl
written_page false dirty write = inr (ground (arith, write))

-- `swap_out_page` marks the entry of the page that it gives back as swapped to some index, and
-- the page is kept. Either it is a clean page of a persistent region, the index is its number in the
-- region, and no file changes. Or it belongs to anonymous memory or is dirty, and then the file that
-- backs its region has the bytes of the page at that index afterwards. This takes that the region of the
-- page exists, pwrite() calls that succeed and move some of the bytes that they are asked to, and a
-- call that returns.
pub swap_out_page-keeps :
    (os : Os) (s : DemoBufferManager) (p : ℕ) (region : Region) (s' : DemoBufferManager)
    → WritesMove os
    → lookup (s.page_infos p).region_id s.regions ≡ some region
    → swap_out_page os s ≡ some (p, s')
    → (ix : ℕ) × (pte : RegionPte) × (pte_at s'.regions
          (s.page_infos p).region_id
          (s.page_infos p).off
        ≡ some (make_swap pte ix))
      × (((is_anon s region ≡ false)
            × ((s.page_infos p).dirty ≡ false)
            × (ix ≡ (s.page_infos p).off)
            × (s'.files ≡ s.files))
          ⊎ (((is_anon s region ≡ true) ⊎ ((s.page_infos p).dirty ≡ true))
              × ((k : ℕ)
                  → k < page_size
                  → s'.files region.swapfd (ix * page_size + k) ≡ s.shm (p * page_size + k))))
unfolding pte_at is_anon
swap_out_page-keeps os s p region s' moves has_region e =
    let out : SwapsOut os s p s' = swap_out_page-SwapsOut os s p s' e in
    let t : DemoBufferManager = record s { free_swap_entries = out.rest } in
    let info = s.page_infos p in
    let paged = out.paged in
    let is : paged.region ≡ region = some_inj _ _ (sym paged.has_region ∙ has_region) in
    let same : out.found.region ≡ region = some_inj _ _ (sym out.found.has_region ∙ has_region) in
    let here : pte_at t.regions info.region_id info.off ≡ some paged.pte =
      rw paged.has_region paged.has_pte in
    let marked =
      pte_at-set_pte_self t.regions info.region_id info.off (make_swap paged.pte out.ix) paged.pte
        here in
    (
      out.ix,
      paged.pte,
      ap (λ (u : DemoBufferManager). pte_at u.regions info.region_id info.off)
            (PagesOut-eq os t p out.ix s' paged)
          ∙ marked,
      elim (Bool-cases (not (is_anon s region) && not info.dirty)) [
        | inl clean ↦
            let (pers, unchanged) = clean_page (is_anon s region) info.dirty clean in
            inl (
              pers,
              unchanged,
              elim out.found.choice [
                | inl (anon, _) ↦ absurd (ground (arith, pers, anon, ap (is_anon s) same))
                | inr (_, at, _) ↦ at
              ],
              ap (λ (u : DemoBufferManager). u.files)
                  (sym (some_inj _ _ (sym (if_true _ _ _ clean) ∙ rw is at paged.written))),
            )
        | inr write ↦ inr (
          written_page (is_anon s region) info.dirty write,
          λ k below.
              swap_out_page_data-writes os (unwritten t p out.ix paged.pte) p region.swapfd out.ix
                s' moves (sym (if_false _ _ _ write) ∙ rw is at paged.written) k below,
        )
      ],
    )
