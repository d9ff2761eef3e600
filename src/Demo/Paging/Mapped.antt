-- ===== src/Demo/Paging/Mapped.antt =====
-- Mapping a page to a frame in the operation's hands keeps the frame invariant.
use dasim.Base.{
  ℕ, some_inj, ◌≤◌, ◌≡◌, ◌∙◌, ◌≢◌, refl, sym, Bool, true, false, some, [], ◌∷◌, ◌++◌, count,
  count-append, arith, inl, inr, ◌⊎◌, ==_refl, ne→==,
}
use native.Mathlib.Decide.{ℕ_discrete}
use dasim.Demo.Pte.{RegionPte, make_present}
use dasim.Demo.PageIo.{Bytes}
use dasim.Demo.State.{DemoBufferManager, pte_at, set_pte, update, PageInfo}
use dasim.Demo.State.Slots.{pte_at-set_pte_self, pte_at-set_pte_ne}
use dasim.Demo.State.Inv.{Inv, Holds, IsMapped, same-slot}

-- The state after `map_page`.
abbrev pub mapped_page :
    DemoBufferManager → ℕ → ℕ → ℕ → PageInfo → Bytes → RegionPte → DemoBufferManager
mapped_page s id poff p info shm pte = record s {
  used_pages = s.used_pages ++ p ∷ [];
  page_infos = update s.page_infos p info;
  shm = shm;
  regions = set_pte s.regions id poff (make_present pte p);
}

module _ {nr : ℕ} (s : DemoBufferManager) (p : ℕ) (v : Inv nr (p ∷ []) s) (id poff : ℕ)
    (dirty : Bool) (shm : Bytes) (pte : RegionPte) (here : pte_at s.regions id poff ≡ some pte)
    (absent : pte.present ≡ false) where
  abbrev pub info : PageInfo
  info = record { region_id = id; off = poff; used_pages_it = p; dirty = dirty }

  abbrev pub after : DemoBufferManager
  after = mapped_page s id poff p info shm pte

  unused : count p s.used_pages ≡ 0
  unused = ground (arith, v.frames p)

  mapped-backed :
      (id' i' : ℕ) (pte' : RegionPte)
      → pte_at after.regions id' i' ≡ some pte'
      → pte'.present ≡ true
      → Holds after pte'.nr id' i'
  unfolding make_present
  mapped-backed id' i' pte' e pr = elim (same-slot id poff id' i') [
    | inl (er, eo) ↦
        let now : pte_at after.regions id' i' ≡ some (make_present pte p) =
          rw (← er, ← eo) (pte_at-set_pte_self s.regions id poff (make_present pte p) pte here) in
        let is : make_present pte p ≡ pte' = some_inj _ _ (sym now ∙ e) in
        rw (← is) (record {
          in_use = ground (arith, count-append p s.used_pages (p ∷ []));
          of_region = ground arith;
          at_off = ground arith;
          iterator = ground arith;
        })
    | inr other ↦
        let old : pte_at s.regions id' i' ≡ some pte' =
          sym (pte_at-set_pte_ne s.regions id poff (make_present pte p) id' i' other) ∙ e in
        let hold : Holds s pte'.nr id' i' = v.backed id' i' pte' old pr in
        let ne : p ≢ pte'.nr = λ eq. absurd (ground (arith, hold.in_use, unused, eq)) in
        record {
          in_use = ground (arith, hold.in_use, count-append pte'.nr s.used_pages (p ∷ []));
          of_region = ground (arith, hold.of_region);
          at_off = ground (arith, hold.at_off);
          iterator = ground (arith, hold.iterator);
        }
  ]

  elsewhere :
      (q : ℕ) → IsMapped s q → (id ≢ (s.page_infos q).region_id) ⊎ (poff ≢ (s.page_infos q).off)
  elsewhere q own = elim (same-slot id poff (s.page_infos q).region_id (s.page_infos q).off) [
    | inl (er, eo) ↦
        let found : pte_at s.regions id poff ≡ some own.pte = rw (er, eo) own.found in
        let is : pte ≡ own.pte = some_inj _ _ (sym here ∙ found) in
        absurd (ground (arith, own.present, is))
    | inr other ↦ other
  ]

  IsMapped-owned : (q : ℕ) → 1 ≤ count q after.used_pages → IsMapped after q
  unfolding make_present
  IsMapped-owned q h = elim (ℕ_discrete p q) [
    | yes eq ↦ rw (← eq) (record {
      pte = make_present pte p;
      found = rw (==_refl p) (pte_at-set_pte_self s.regions id poff (make_present pte p) pte here);
      present = refl;
      points = refl;
    })
    | no ne ↦
        let own : IsMapped s q =
          v.owned q (ground (arith, h, count-append q s.used_pages (p ∷ []))) in
        record {
          pte = own.pte;
          found = rw (ne→== p q ne) (
              pte_at-set_pte_ne s.regions id poff (make_present pte p) (s.page_infos q).region_id
                (s.page_infos q).off (elsewhere q own)
              ∙ own.found);
          present = own.present;
          points = own.points;
        }
  ]

  pub mapped-Inv : Inv nr [] after
  mapped-Inv = record {
    frames = λ q. ground (arith, v.frames q, count-append q s.used_pages (p ∷ []));
    backed = mapped-backed;
    owned = IsMapped-owned;
  }
