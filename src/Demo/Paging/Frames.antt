-- ===== src/Demo/Paging/Frames.antt =====
-- Page faults keep the frame invariant.
mod Changes
pub use Changes.*
use dasim.Base.{
  ℕ, ◌*◌, ◌/◌, some_inj, if_true, if_false, List-cases, ◌≤◌, ◌≡◌, ◌∙◌, ◌≢◌, sym, ap, Bool, true,
  false, not, ◌&&◌, some, [], ◌∷◌, count, lookup, if◌then◌else◌, ◌>>=◌, >>=-eq-some, arith, inl,
  inr, ◌⊎◌, Bool-cases,
}
use dasim.Types.{page_size, UnfixResult, MarkDirtyResult}
use dasim.Demo.Pte.{
  RegionPte, Region, make_swap, get_pte, is_swapped, get_swap_ix, is_present, get_page_nr,
}
use dasim.Demo.PageIo.{Os, read_loop, write_loop, page_fuel}
use dasim.Demo.State.{DemoBufferManager, is_anon, pte_at}
use dasim.Demo.State.Slots.{pte_at-set_pte_ne}
use dasim.Demo.State.Inv.{Inv, with_dirty-Inv, same-slot, frame_of_slot}
use dasim.Demo.Paging.{
  swap_in_page, swap_out_page_data, swap_out_page, take_page, map_page, unfix_present, unfix_absent,
  unfix, mark_dirty,
}
use dasim.Demo.Paging.SwapOut.{PagesOut, SwapsOut, unwritten, swap_out_page-SwapsOut}
use dasim.Demo.Paging.Evicted.{unwritten-Inv}
use dasim.Demo.Paging.Mapped.{mapped-Inv}

-- The frame that `take_page` hands out is in nobody else's hands, and an absent entry stays.
pub record Takes (nr : ℕ) (s : DemoBufferManager) (p : ℕ) (s' : DemoBufferManager) : Type 0 where
  pub inv : Inv nr (p ∷ []) s'
  pub keeps :
      (id i : ℕ) (pte : RegionPte)
      → pte_at s.regions id i ≡ some pte
      → pte.present ≡ false
      → pte_at s'.regions id i ≡ some pte

-- The page of a used frame is present, so an absent entry is another page's.
absent-apart :
    {nr : ℕ} (s : DemoBufferManager)
    → Inv nr [] s
    → (p id i : ℕ) (pte : RegionPte) → 1 ≤ count p s.used_pages
    → pte_at s.regions id i ≡ some pte
    → pte.present ≡ false
    → ((s.page_infos p).region_id ≢ id) ⊎ ((s.page_infos p).off ≢ i)
absent-apart s v p id i pte used f absent =
    elim (same-slot (s.page_infos p).region_id (s.page_infos p).off id i) [
      | inl (er, eo) ↦
          let (_, present) = frame_of_slot s v p id i pte er eo used f in
          absurd (ground (arith, present, absent))
      | inr other ↦ other
    ]

swap_out_page-Takes :
    (nr : ℕ) (os : Os) (s : DemoBufferManager) (p : ℕ) (s' : DemoBufferManager)
    → Inv nr [] s
    → swap_out_page os s ≡ some (p, s')
    → Takes nr s p s'
unfolding pte_at
swap_out_page-Takes nr os s p s' v e =
    let out : SwapsOut os s p s' = swap_out_page-SwapsOut os s p s' e in
    let t : DemoBufferManager = record s { free_swap_entries = out.rest } in
    let here : pte_at t.regions (t.page_infos p).region_id (t.page_infos p).off
        ≡ some out.paged.pte =
      rw out.paged.has_region out.paged.has_pte in
    let used : 1 ≤ count p t.used_pages = out.found.member in
    rw (PagesOut-eq os t p out.ix s' out.paged) (record {
      inv = unwritten-Inv t v p out.ix out.paged.pte used here;
      keeps = λ id i pte f absent.
          pte_at-set_pte_ne t.regions (t.page_infos p).region_id (t.page_infos p).off
            (make_swap out.paged.pte out.ix) id i (absent-apart t v p id i pte used f absent)
          ∙ f;
    })

pub take_page-Takes :
    (nr : ℕ) (os : Os) (s : DemoBufferManager) (p : ℕ) (s' : DemoBufferManager)
    → Inv nr [] s
    → take_page os s ≡ some (p, s')
    → Takes nr s p s'
unfolding take_page
take_page-Takes nr os s p s' v e = elim (List-cases s.free_pages) [
  | inl full ↦ swap_out_page-Takes nr os s p s' v (rw (full, take_page) at e)
  | inr (q, rest, free) ↦
      let t : DemoBufferManager = record s { free_pages = rest } in
      let k : (q, t) ≡ (p, s') = some_inj _ _ (rw (free, take_page) at e) in
      let ep : q ≡ p = ap (λ (u : ℕ × DemoBufferManager). u.0) k in
      let es : t ≡ s' = ap (λ (u : ℕ × DemoBufferManager). u.1) k in
      rw (← ep, ← es)
        (record {
          inv = record {
            frames = λ r. ground (arith, v.frames r, ap (count r) free);
            backed = v.backed;
            owned = v.owned;
          };
          keeps = λ id i pte f absent. f;
        })
]

-- `map_page` maps the absent page to the frame that was taken.
map_page-Inv :
    (nr : ℕ) (s : DemoBufferManager) (region : Region) (id poff : ℕ) (write : Bool) (p : ℕ)
    (pte : RegionPte) (res : UnfixResult) (s' : DemoBufferManager)
    → Inv nr (p ∷ []) s
    → pte_at s.regions id poff ≡ some pte
    → pte.present ≡ false
    → map_page s region id poff write p ≡ some (res, s')
    → Inv nr [] s'
unfolding map_page
map_page-Inv nr s region id poff write p pte res s' v f absent e =
    let k = some_inj _ _ (rw (f, map_page) at e) in
    let es = ap (λ (u : UnfixResult × DemoBufferManager). u.1) k in
    rw (← es) (mapped-Inv s p v id poff (if pte.swap then write else true) s.shm pte f absent)

-- Swapping in touches no frame.
pub swapped_in-eq :
    (os : Os) (s : DemoBufferManager) (fd : ℕ) (pte : RegionPte) (s' : DemoBufferManager)
    → (if is_swapped pte
        then (get_swap_ix pte >>= λ swap_ix. swap_in_page os s fd swap_ix)
        else some s)
      ≡ some s'
    → s' ≡ record s { tmp_page = s'.tmp_page; free_swap_entries = s'.free_swap_entries }
swapped_in-eq os s fd pte s' e = elim (Bool-cases (is_swapped pte)) [
  | inl swapped ↦
      let (ix, _, k) = >>=-eq-some (get_swap_ix pte) _ (rw swapped at e) in
      swap_in_page-eq os s fd ix s' k
  | inr fresh ↦ rw (← some_inj s s' (rw fresh at e))
]

unfix_absent-Inv :
    (nr : ℕ) (os : Os) (s : DemoBufferManager) (region : Region) (id poff : ℕ) (write : Bool)
    (pte : RegionPte) (res : UnfixResult) (s' : DemoBufferManager)
    → Inv nr [] s
    → pte_at s.regions id poff ≡ some pte
    → pte.present ≡ false
    → unfix_absent os s region id poff write pte ≡ some (res, s')
    → Inv nr [] s'
unfolding unfix_absent
unfix_absent-Inv nr os s region id poff write pte res s' v f absent e =
    let (s1, e1, k1) =
      >>=-eq-some
        (if is_swapped pte
          then (get_swap_ix pte >>= λ swap_ix. swap_in_page os s region.swapfd swap_ix)
          else some s)
        _ e in
    let (t, e2, k2) = >>=-eq-some (take_page os s1) _ k1 in
    let same : s1 ≡ record s { tmp_page = s1.tmp_page; free_swap_entries = s1.free_swap_entries } =
      swapped_in-eq os s region.swapfd pte s1 e1 in
    let v1 : Inv nr [] s1 = rw same v in
    let f1 : pte_at s1.regions id poff ≡ some pte =
      ap (λ (u : DemoBufferManager). pte_at u.regions id poff) same ∙ f in
    let takes : Takes nr s1 t.0 t.1 = take_page-Takes nr os s1 t.0 t.1 v1 e2 in
    map_page-Inv nr t.1 region id poff write t.0 pte res s' takes.inv
      (takes.keeps id poff pte f1 absent) absent k2

unfix_present-Inv :
    (nr : ℕ) (s : DemoBufferManager) (region : Region) (poff : ℕ) (write : Bool) (pte : RegionPte)
    (res : UnfixResult) (s' : DemoBufferManager)
    → Inv nr [] s
    → pte.present ≡ true
    → unfix_present s region poff write pte ≡ some (res, s')
    → Inv nr [] s'
unfolding unfix_present
unfix_present-Inv nr s region poff write pte res s' v present e =
    let k = some_inj _ _ (rw (present, unfix_present, get_page_nr) at e) in
    let es = ap (λ (u : UnfixResult × DemoBufferManager). u.1) k in
    rw (← es) (with_dirty-Inv s pte.nr write v)

-- `unfix` keeps the frame invariant.
pub unfix-Inv :
    (nr : ℕ) (os : Os) (s : DemoBufferManager) (id off : ℕ) (write : Bool) (res : UnfixResult)
    (s' : DemoBufferManager)
    → Inv nr [] s
    → unfix os s id off write ≡ some (res, s')
    → Inv nr [] s'
unfolding unfix pte_at
unfix-Inv nr os s id off write res s' v e =
    let (region, has_region, e1) = >>=-eq-some (lookup id s.regions) _ e in
    let (pte, has_pte, e2) = >>=-eq-some (get_pte region (off / page_size)) _ e1 in
    let f : pte_at s.regions id (off / page_size) ≡ some pte = rw has_region has_pte in
    elim (Bool-cases pte.present) [
      | inl present ↦
          unfix_present-Inv nr s region (off / page_size) write pte res s' v present
            (sym (if_true (is_present pte) _ _ present) ∙ e2)
      | inr absent ↦
          unfix_absent-Inv nr os s region id (off / page_size) write pte res s' v f absent
            (sym (if_false (is_present pte) _ _ absent) ∙ e2)
    ]

-- `mark_dirty` keeps the frame invariant.
pub mark_dirty-Inv :
    (nr : ℕ) (s : DemoBufferManager) (id off : ℕ) (res : MarkDirtyResult) (s' : DemoBufferManager)
    → Inv nr [] s
    → mark_dirty s id off ≡ some (res, s')
    → Inv nr [] s'
unfolding mark_dirty
mark_dirty-Inv nr s id off res s' v e =
    let (region, _, e1) = >>=-eq-some (lookup id s.regions) _ e in
    let (pte, _, e2) = >>=-eq-some (get_pte region (off / page_size)) _ e1 in
    elim (Bool-cases pte.present) [
      | inl present ↦
          let k = some_inj _ _ (rw present at e2) in
          let es = ap (λ (u : MarkDirtyResult × DemoBufferManager). u.1) k in
          rw (← es) (with_dirty-Inv s pte.nr true v)
      | inr absent ↦
          let k = some_inj _ _ (rw absent at e2) in
          let es = ap (λ (u : MarkDirtyResult × DemoBufferManager). u.1) k in rw (← es) v
    ]
