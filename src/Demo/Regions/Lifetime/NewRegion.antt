-- ===== src/Demo/Regions/Lifetime/NewRegion.antt =====
-- A region that is inserted: the entries of a new one, and the frame invariant.
use native.Mathlib.Decide.{ℕ_discrete}
use dasim.Base.{
  ℕ, zero, suc, ◌+◌, ◌/◌, ◌≡◌, ◌∙◌, sym, ap, Bool, true, false, none, some, some_inj, List, [], ◌∷◌,
  get_elem?, replicate, lookup, insert, arith,
}
use dasim.Types.{page_size}
use dasim.Demo.Pte.{RegionPte, Region, empty_pte, make_swap, make_swap_all, new_region}
use dasim.Demo.State.{DemoBufferManager, pte_at}
use dasim.Demo.State.Slots.{pte_at-lookup, pte_at-lookup-none, pte_at-insert_self, pte_at-insert_ne}
use dasim.Demo.State.Inv.{Inv, with_regions-Inv}

replicate-absent :
    (n i : ℕ) (pte : RegionPte)
    → get_elem? (replicate n empty_pte) i ≡ some pte
    → pte.present ≡ false
replicate-absent zero i pte e = absurd (cc)
replicate-absent (suc n) zero pte e = ap (λ (t : RegionPte). t.present) (sym (some_inj _ _ e))
replicate-absent (suc n) (suc i) pte e = replicate-absent n i pte e

make_swap_all-absent :
    (j : ℕ) (ptes : List RegionPte) (i : ℕ) (pte : RegionPte)
    → get_elem? (make_swap_all j ptes) i ≡ some pte
    → pte.present ≡ false
unfolding make_swap_all make_swap
make_swap_all-absent j [] i pte e = absurd (cc)
make_swap_all-absent j (x ∷ xs) zero pte e =
    ap (λ (t : RegionPte). t.present) (sym (some_inj _ _ e))
make_swap_all-absent j (x ∷ xs) (suc i) pte e = make_swap_all-absent (j + 1) xs i pte e

-- No entry of a new region is present.
pub new_region-absent :
    (addr size swapfd : ℕ) (persistent anchored : Bool) (i : ℕ) (pte : RegionPte)
    → get_elem? (new_region addr size swapfd persistent anchored).ptes i ≡ some pte
    → pte.present ≡ false
unfolding new_region
new_region-absent addr size swapfd true anchored i pte e =
    make_swap_all-absent 0 (replicate (size / page_size) empty_pte) i pte e
new_region-absent addr size swapfd false anchored i pte e =
    replicate-absent (size / page_size) i pte e

-- A region under a new name, with no present entry, is no concern of the invariant.
pub insert-Inv :
    {nr : ℕ} (s : DemoBufferManager) (id : ℕ) (region : Region)
    → Inv nr [] s
    → lookup id s.regions ≡ none
    → ((i : ℕ) (pte : RegionPte) → get_elem? region.ptes i ≡ some pte → pte.present ≡ false)
    → Inv nr [] (record s { regions = insert id region s.regions })
insert-Inv s id region v fresh absent =
    with_regions-Inv s s.regions (insert id region s.regions) v (λ id' i pte pr.
      elim (ℕ_discrete id id') [
        | yes is ↦
            let self = pte_at-insert_self s.regions id region i in
            let old = pte_at-lookup-none s.regions id i fresh in
            rw (← is) (
              λ g. absurd (ground (arith, pr, absent i pte (sym self ∙ g))),
              λ g. absurd (ground (arith, old, g)),
            )
        | no ne ↦
            let other = pte_at-insert_ne s.regions id region id' i ne in
            (λ g. sym other ∙ g, λ g. other ∙ g)
      ])

-- A region that is put back with the same entries.
pub replace-Inv :
    {nr : ℕ} (s : DemoBufferManager) (id : ℕ) (region region' : Region)
    → Inv nr [] s
    → lookup id s.regions ≡ some region
    → region'.ptes ≡ region.ptes
    → Inv nr [] (record s { regions = insert id region' s.regions })
replace-Inv s id region region' v found same =
    with_regions-Inv s s.regions (insert id region' s.regions) v (λ id' i pte pr.
      elim (ℕ_discrete id id') [
        | yes is ↦
            let self : pte_at (insert id region' s.regions) id i ≡ get_elem? region.ptes i =
              pte_at-insert_self s.regions id region' i
              ∙ ap (λ (l : List RegionPte). get_elem? l i) same in
            let old = pte_at-lookup s.regions id region i found in
            rw (← is) (λ g. old ∙ sym self ∙ g, λ g. self ∙ sym old ∙ g)
        | no ne ↦
            let other = pte_at-insert_ne s.regions id region' id' i ne in
            (λ g. sym other ∙ g, λ g. other ∙ g)
      ])
