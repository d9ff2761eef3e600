-- ===== src/Demo/Backing/Shown.antt =====
-- What a region shows when `allocate` has made it.
use dasim.Base.{
  List, [], ◌∷◌, ◌≤◌, length, length-replicate, none, ap, refl, ℕ, ◌+◌, ◌*◌, ◌/◌, ◌<◌, ◌≡◌, ◌≢◌,
  ◌∙◌, refl, sym, ap, inl, inr, Bool, true, false, some, if◌then◌else◌, if_true, Bool-cases, arith,
  get_elem?, replicate, zero, suc,
}
use dasim.Types.{page_size, Properties}
use dasim.Demo.Pte.{RegionPte, new_region, make_swap_all, empty_pte, get_pte}
use dasim.Demo.PageIo.{Os}
use dasim.Demo.PageIo.Transfers.{WritesMove}
use dasim.Demo.State.{DemoBufferManager, pte_at}
use dasim.Demo.Regions.{allocate, is_persistent}
use dasim.Demo.Backing.{fd_of, content, view, PageAt, Backing, Everywhere}
use dasim.Demo.Backing.Places.{view-PageAt}
use dasim.Demo.Backing.Grown.{new-PageAt, grown-Backing, grown-view}
use dasim.Demo.Backing.NewRegion.{OpensFresh, New, allocate-New}

new_entry :
    (persistent : Bool) (n i : ℕ)
    → i < n
    → (pte : RegionPte) × (get_elem?
          (if persistent then make_swap_all 0 (replicate n empty_pte) else replicate n empty_pte)
          i
        ≡ some pte)
unfolding make_swap_all
new_entry true n i below = made n i 0 below
  where
    made :
        (n i start : ℕ)
        → i < n
        → (pte : RegionPte) × (get_elem? (make_swap_all start (replicate n empty_pte)) i ≡ some pte)
    made zero i start below = absurd (omega (arith, below))
    made (suc n) zero start below = (_, refl)
    made (suc n) (suc i) start below = made n i (start + 1) (omega (arith, below))
new_entry false n i below = made n i below
  where
    made : (n i : ℕ) → i < n → (pte : RegionPte) × (get_elem? (replicate n empty_pte) i ≡ some pte)
    made zero i below = absurd (omega (arith, below))
    made (suc n) zero below = (_, refl)
    made (suc n) (suc i) below = made n i (omega (arith, below))

view_first :
    (s : DemoBufferManager) (id size : ℕ) (persistent : Bool) (s' : DemoBufferManager)
    → New s id size persistent s'
    → (i k : ℕ) → i < size / page_size
    → k < page_size
    → view s' id i k ≡ some (if persistent then b'A' else b'a')
unfolding content pte_at fd_of get_pte new_region
view_first s id size persistent s' m i k inside below =
    let g = m.grows in
    let (pte, e) = new_entry persistent (size / page_size) i inside in
    let at : PageAt s'.regions id i pte m.fd = record {
      entry = rw g.region e;
      backed_by = rw g.region;
    } in
    let (_, out, swapped, at_i) = new-PageAt s id m.addr size m.fd persistent s' g i pte m.fd at in
    view-PageAt s' id i k pte m.fd at
    ∙ ap some (elim (Bool-cases persistent) [
      | inr anon ↦ rw (out, swapped, anon)
      | inl file ↦
          let full =
            elim m.filled
              as (λ _. (j : ℕ) → j < (size / page_size) * page_size → s'.files m.fd j ≡ b'A') [
                | inl anon ↦ absurd (ground (arith, anon, file))
                | inr full ↦ full
              ] in
          let at_i' : pte.nr ≡ i = elim at_i [
            | inl anon ↦ absurd (ground (arith, anon, file))
            | inr is ↦ is
          ] in
          rw out (
            if_true pte.swap _ _ (swapped ∙ file)
            ∙ full (pte.nr * page_size + k) (omega (arith, at_i', inside, below))
            ∙ sym (if_true persistent _ _ file))
    ])

length-make_swap_all :
    (start : ℕ) (ptes : List RegionPte) → length (make_swap_all start ptes) ≡ length ptes
unfolding make_swap_all
length-make_swap_all start [] = refl
length-make_swap_all start (pte ∷ ptes) = ap suc (length-make_swap_all (start + 1) ptes)

no_entry : (ptes : List RegionPte) (i : ℕ) → length ptes ≤ i → get_elem? ptes i ≡ none
no_entry [] i past = refl
no_entry (pte ∷ ptes) zero past = absurd (omega (arith, past))
no_entry (pte ∷ ptes) (suc i) past = no_entry ptes i (omega (arith, past))

-- The region has no pages past its size.
view_past :
    (s : DemoBufferManager) (id size : ℕ) (persistent : Bool) (s' : DemoBufferManager)
    → New s id size persistent s'
    → (i k : ℕ) → size / page_size ≤ i
    → view s' id i k ≡ none
unfolding view pte_at get_pte new_region
view_past s id size persistent s' m i k past =
    let ptes = replicate (size / page_size) empty_pte in
    let short : length ptes ≤ i =
      omega (arith, past, length-replicate (size / page_size) empty_pte) in
    rw m.grows.region (elim (Bool-cases persistent) [
      | inl file ↦
          rw (file, no_entry (make_swap_all 0 ptes) i (rw (length-make_swap_all 0 ptes) short))
      | inr anon ↦ rw (anon, no_entry ptes i short)
    ])

-- What a new region shows, in RAM or not, and what comes past its end.
abbrev pub fill : Properties → ℕ
fill properties = if is_persistent properties then b'A' else b'a'

-- When `allocate` succeeds, every byte of the new region is 'A' if it is persistent and 'a' if
-- not, it has as many pages as its size holds, every other region shows what it showed, and the conditions on the files hold again if
-- they held before. This takes writes that succeed and move some of their bytes, and an open()
-- of the region's file that, if it succeeds, returns a descriptor which is not in use.
pub allocate-Shows :
    (os : Os) (s : DemoBufferManager) (id size : ℕ) (properties : Properties) (out : ℕ)
    (r : ℕ × ℕ × DemoBufferManager)
    → WritesMove os
    → OpensFresh os s id
    → Backing Everywhere s
    → allocate os s id size properties out ≡ some r
    → r.0 ≡ 0
    → Backing Everywhere r.2
      × ((j i k : ℕ) → id ≢ j → view r.2 j i k ≡ view s j i k)
      × ((i k : ℕ)
          → i < size / page_size
          → k < page_size
          → view r.2 id i k ≡ some (fill properties))
      × ((i k : ℕ) → size / page_size ≤ i → view r.2 id i k ≡ none)
allocate-Shows os s id size properties out r moves opens b e code =
    let m = allocate-New os s id size properties out r moves opens e code in
    let kind = is_persistent properties in
    (
      grown-Backing s id m.addr size m.fd kind r.2 m.grows b,
      grown-view s id m.addr size m.fd kind r.2 m.grows,
      view_first s id size kind r.2 m,
      view_past s id size kind r.2 m,
    )
