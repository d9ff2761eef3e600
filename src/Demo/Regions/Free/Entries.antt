-- ===== src/Demo/Regions/Free/Entries.antt =====
-- What the loop of `free` does for one entry.
use dasim.Base.{
  ℕ, ◌≡◌, ◌∙◌, sym, true, false, not, ◌&&◌, some, some_inj, if_true, if_false, [], ◌∷◌, ◌++◌,
  count-append, erase, Map, if◌then◌else◌, ◌>>=◌, >>=-eq-some, arith, inl, inr, Bool-cases,
}
use dasim.Demo.Pte.{RegionPte, Region, make_swap, get_swap_ix}
use dasim.Demo.PageIo.{Os}
use dasim.Demo.State.{DemoBufferManager, is_anon, pte_at, set_pte}
use dasim.Demo.State.Inv.{Inv, Holds, with_regions}
use dasim.Demo.Paging.{swap_out_page_data}
use dasim.Demo.Paging.Frames.{swap_out_page_data-eq}
use dasim.Demo.Paging.SwapOut.{unwritten}
use dasim.Demo.Paging.Evicted.{unwritten-Inv}
use dasim.Demo.Regions.{free_pte}

-- What a present entry costs.
abbrev pub gave_back : DemoBufferManager → ℕ → DemoBufferManager
gave_back s p = record s {
  used_pages = erase (s.page_infos p).used_pages_it s.used_pages;
  free_pages = s.free_pages ++ p ∷ [];
}

pub gave_back-Inv :
    (nr : ℕ) (s : DemoBufferManager) (rs : Map Region) (id j : ℕ) (pte : RegionPte)
    → Inv nr [] (with_regions s rs)
    → pte_at rs id j ≡ some pte
    → pte.present ≡ true
    → Inv nr [] (with_regions (gave_back s pte.nr) (set_pte rs id j (make_swap pte 0)))
gave_back-Inv nr s rs id j pte v e present =
    let g : DemoBufferManager = with_regions s rs in
    let p : ℕ = pte.nr in
    let hold : Holds g p id j = v.backed id j pte e present in
    let here : pte_at g.regions (g.page_infos p).region_id (g.page_infos p).off ≡ some pte =
      rw (hold.of_region, hold.at_off) e in
    let w : Inv nr (p ∷ []) (unwritten g p 0 pte) = unwritten-Inv g v p 0 pte hold.in_use here in
    let at : Inv nr (p ∷ [])
        (record (unwritten g p 0 pte) { regions = set_pte rs id j (make_swap pte 0) }) =
      rw (hold.of_region, hold.at_off) at w in
    record {
      frames = λ q. ground (arith, at.frames q, count-append q s.free_pages (p ∷ []));
      backed = at.backed;
      owned = at.owned;
    }

-- A state that differs in nothing that the invariant reads.
pub free_pte_present :
    (os : Os) (region : Region) (pte : RegionPte) (s s' : DemoBufferManager)
    → pte.present ≡ true
    → free_pte os region pte s ≡ some s'
    → s' ≡ record (gave_back s pte.nr) { files = s'.files }
unfolding free_pte
free_pte_present os region pte s s' present e =
    let info = s.page_infos pte.nr in
    let e1 : (if not (is_anon s region) && info.dirty
          then swap_out_page_data os (gave_back s pte.nr) pte.nr region.swapfd info.off
          else some (gave_back s pte.nr))
        ≡ some s' =
      rw (present, free_pte) at e in
    elim (Bool-cases (not (is_anon s region) && info.dirty)) [
      | inl write ↦
          swap_out_page_data-eq os (gave_back s pte.nr) pte.nr region.swapfd info.off s'
            (sym (if_true _ _ _ write) ∙ e1)
      | inr keep ↦ rw (← some_inj _ _ (sym (if_false _ _ _ keep) ∙ e1))
    ]

pub free_pte_absent :
    (os : Os) (region : Region) (pte : RegionPte) (s s' : DemoBufferManager)
    → pte.present ≡ false
    → free_pte os region pte s ≡ some s'
    → s' ≡ record s { free_swap_entries = s'.free_swap_entries }
unfolding free_pte
free_pte_absent os region pte s s' absent e =
    let freed : DemoBufferManager = record s { free_swap_entries = pte.nr ∷ s.free_swap_entries } in
    let e1 : (if pte.swap && is_anon s region
          then (get_swap_ix pte >>= λ ix.
              some (record s { free_swap_entries = ix ∷ s.free_swap_entries }))
          else some s)
        ≡ some s' =
      rw (absent, free_pte) at e in
    elim (Bool-cases (pte.swap && is_anon s region)) [
      | inl swapped ↦
          let (ix, _, k) = >>=-eq-some (get_swap_ix pte) _ (sym (if_true _ _ _ swapped) ∙ e1) in
          rw (← some_inj _ _ k)
      | inr keep ↦ rw (← some_inj _ _ (sym (if_false _ _ _ keep) ∙ e1))
    ]
