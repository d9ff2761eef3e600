-- ===== src/Demo/Paging/Evicted.antt =====
-- Paging out a frame keeps the frame invariant, with the frame in the operation's hands.
use dasim.Base.{
  ℕ, some_inj, ◌≤◌, ◌≡◌, ◌∙◌, ◌≢◌, refl, sym, ap, true, some, [], ◌∷◌, count, count-erase, erase,
  arith, inl, inr, ◌⊎◌,
}
use dasim.Demo.Pte.{RegionPte, make_swap}
use dasim.Demo.State.{DemoBufferManager, pte_at}
use dasim.Demo.State.Slots.{pte_at-set_pte_self, pte_at-set_pte_ne}
use dasim.Demo.State.Inv.{Inv, Holds, IsMapped, same-slot, frame_of_slot, used_once}
use dasim.Demo.Paging.SwapOut.{unwritten}

-- With its entry marked as swapped, page `p` is in the hands of the operation.
module _ {nr : ℕ} (s : DemoBufferManager) (v : Inv nr [] s) (p ix : ℕ) (pte : RegionPte)
    (used : 1 ≤ count p s.used_pages)
    (here : pte_at s.regions (s.page_infos p).region_id (s.page_infos p).off ≡ some pte) where
  own_iterator : (s.page_infos p).used_pages_it ≡ p
  own_iterator =
      let (points, present) = frame_of_slot s v p _ _ pte refl refl used here in
      let hold : Holds s pte.nr (s.page_infos p).region_id (s.page_infos p).off =
        v.backed _ _ pte here present in
      rw points at hold.iterator

  -- An entry that is present after the change was so before, elsewhere and in another frame.
  pub unwritten-present :
      (id i : ℕ) (pte' : RegionPte)
      → pte_at (unwritten s p ix pte).regions id i ≡ some pte'
      → pte'.present ≡ true
      → (pte_at s.regions id i ≡ some pte')
        × (((s.page_infos p).region_id ≢ id) ⊎ ((s.page_infos p).off ≢ i))
        × (pte'.nr ≢ p)
  unfolding make_swap
  unwritten-present id i pte' e pr =
      elim (same-slot (s.page_infos p).region_id (s.page_infos p).off id i) [
        | inl (er, eo) ↦
            let now : pte_at (unwritten s p ix pte).regions id i ≡ some (make_swap pte ix) =
              rw (← er, ← eo)
                (pte_at-set_pte_self s.regions (s.page_infos p).region_id (s.page_infos p).off
                  (make_swap pte ix) pte here) in
            absurd (ground (arith, some_inj (make_swap pte ix) pte' (sym now ∙ e)))
        | inr other ↦
            let old : pte_at s.regions id i ≡ some pte' =
              sym (
                pte_at-set_pte_ne s.regions (s.page_infos p).region_id (s.page_infos p).off
                  (make_swap pte ix) id i other)
              ∙ e in
            let hold : Holds s pte'.nr id i = v.backed id i pte' old pr in
            (
              old,
              other,
              λ eq. elim other [
                | inl n ↦ n (ap (λ k. (s.page_infos k).region_id) (sym eq) ∙ hold.of_region)
                | inr n ↦ n (ap (λ k. (s.page_infos k).off) (sym eq) ∙ hold.at_off)
              ],
            )
      ]

  pub unwritten-backed :
      (id i : ℕ) (pte' : RegionPte)
      → pte_at (unwritten s p ix pte).regions id i ≡ some pte'
      → pte'.present ≡ true
      → Holds (unwritten s p ix pte) pte'.nr id i
  unwritten-backed id i pte' e pr =
      let (old, other, ne) = unwritten-present id i pte' e pr in
      let hold : Holds s pte'.nr id i = v.backed id i pte' old pr in
      record {
        in_use =
            rw own_iterator (ground (arith, hold.in_use, count-erase pte'.nr p s.used_pages used));
        of_region = hold.of_region;
        at_off = hold.at_off;
        iterator = hold.iterator;
      }

  apart :
      (q : ℕ)
      → IsMapped s q
      → p ≢ q
      → ((s.page_infos p).region_id ≢ (s.page_infos q).region_id)
        ⊎ ((s.page_infos p).off ≢ (s.page_infos q).off)
  apart q own ne =
      elim (same-slot (s.page_infos p).region_id (s.page_infos p).off (s.page_infos q).region_id
        (s.page_infos q).off) [
          | inl (er, eo) ↦
              let (points, _) = frame_of_slot s v p _ _ own.pte er eo used own.found in
              absurd (ne (sym points ∙ own.points))
          | inr other ↦ other
        ]

  pub unwritten-owned :
      (q : ℕ) → 1 ≤ count q (unwritten s p ix pte).used_pages → IsMapped (unwritten s p ix pte) q
  unwritten-owned q h =
      let left : 1 ≤ count q (erase p s.used_pages) = rw own_iterator at h in
      let still : (1 ≤ count q s.used_pages) × (p ≢ q) =
        ground (arith, count-erase q p s.used_pages used, used_once s v p used) in
      let own : IsMapped s q = v.owned q still.0 in
      record {
        pte = own.pte;
        found =
            pte_at-set_pte_ne s.regions _ _ (make_swap pte ix) _ _ (apart q own still.1)
            ∙ own.found;
        present = own.present;
        points = own.points;
      }

  pub unwritten-Inv : Inv nr (p ∷ []) (unwritten s p ix pte)
  unwritten-Inv = record {
    frames = λ q. rw own_iterator (ground (arith, v.frames q, count-erase q p s.used_pages used));
    backed = unwritten-backed;
    owned = unwritten-owned;
  }
