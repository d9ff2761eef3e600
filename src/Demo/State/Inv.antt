-- ===== src/Demo/State/Inv.antt =====
-- The frame invariant of `demo_buffer_manager`: m_free_pages, m_used_pages, m_page_infos and the
-- page table entries agree on who owns each page of RAM.
use native.Mathlib.Decide.{ℕ_discrete}
use dasim.Base.{
  ℕ, ◌+◌, ◌≤◌, ◌<◌, ◌≡◌, ◌≢◌, ◌∙◌, refl, sym, Bool, ==_refl, ne→==, true, some, some_inj, List, [],
  Map, count, ltb, if◌then◌else◌, inl, inr, ◌⊎◌, arith,
}
use dasim.Demo.Pte.{RegionPte, Region}
use dasim.Demo.State.{DemoBufferManager, PageInfo, pte_at, update}

-- The part of the state that the invariant speaks of.
pub record Table : Type 0 where
  pub regions : Map Region
  pub page_infos : ℕ → PageInfo
  pub used_pages : List ℕ

abbrev pub table : DemoBufferManager → Table
table s = record { regions = s.regions; page_infos = s.page_infos; used_pages = s.used_pages }

-- Frame `p` holds page `i` of region `id`, and is in m_used_pages.
pub record HoldsIn (s : Table) (p id i : ℕ) : Type 0 where
  pub in_use : 1 ≤ count p s.used_pages
  pub of_region : (s.page_infos p).region_id ≡ id
  pub at_off : (s.page_infos p).off ≡ i
  pub iterator : (s.page_infos p).used_pages_it ≡ p

-- The page that the information about frame `p` names is in fact mapped to `p`.
pub record IsMappedIn (s : Table) (p : ℕ) : Type 0 where
  pub pte : RegionPte
  pub found : pte_at s.regions (s.page_infos p).region_id (s.page_infos p).off ≡ some pte
  pub present : pte.present ≡ true
  pub points : pte.nr ≡ p

-- Of the pages below `nr` each is once free, once in use, or once among those `held` by an
-- operation that is on its way.
pub record InvOf (nr : ℕ) (held free : List ℕ) (s : Table) : Type 0 where
  pub frames :
      (p : ℕ) → count p free + count p s.used_pages + count p held ≡ (if ltb p nr then 1 else 0)
  pub backed :
      (id i : ℕ) (pte : RegionPte)
      → pte_at s.regions id i ≡ some pte
      → pte.present ≡ true
      → HoldsIn s pte.nr id i
  pub owned : (p : ℕ) → 1 ≤ count p s.used_pages → IsMappedIn s p

abbrev pub Holds : DemoBufferManager → ℕ → ℕ → ℕ → Type 0
Holds s p id i = HoldsIn (table s) p id i

abbrev pub IsMapped : DemoBufferManager → ℕ → Type 0
IsMapped s p = IsMappedIn (table s) p

abbrev pub Inv : ℕ → List ℕ → DemoBufferManager → Type 0
Inv nr held s = InvOf nr held s.free_pages (table s)

-- Two pages of one pair of numbers.
pub same-slot : (id i id' i' : ℕ) → ((id ≡ id') × (i ≡ i')) ⊎ ((id ≢ id') ⊎ (i ≢ i'))
same-slot id i id' i' = elim (ℕ_discrete id id') [
  | no n ↦ inr (inl n)
  | yes p ↦ elim (ℕ_discrete i i') [ no m ↦ inr (inr m) | yes q ↦ inl (p, q) ]
]

-- Two entries at one page have one frame, so pages of different frames are different pages.
module _ {nr : ℕ} (s : DemoBufferManager) (v : Inv nr [] s) where
  pub frame_of_slot :
      (p id i : ℕ) (pte : RegionPte)
      → (s.page_infos p).region_id ≡ id
      → (s.page_infos p).off ≡ i
      → 1 ≤ count p s.used_pages
      → pte_at s.regions id i ≡ some pte
      → (pte.nr ≡ p) × (pte.present ≡ true)
  frame_of_slot p id i pte er eo used e =
      let own : IsMapped s p = v.owned p used in
      let found : pte_at s.regions id i ≡ some own.pte = rw (← er, ← eo) own.found in
      let mapped : own.pte ≡ pte = some_inj own.pte pte (sym found ∙ e) in
      rw (← mapped) (own.points, own.present)

  pub used_once : (p : ℕ) → 1 ≤ count p s.used_pages → (count p s.used_pages ≡ 1) × (p < nr)
  used_once p h = ground (arith, v.frames p)

-- Setting or clearing the dirty flag of a frame.
abbrev pub with_dirty : DemoBufferManager → ℕ → Bool → DemoBufferManager
with_dirty s p d = record s {
  page_infos = update s.page_infos p (record (s.page_infos p) { dirty = d });
}

pub with_dirty_same :
    (s : DemoBufferManager) (p : ℕ) (d : Bool) (q : ℕ)
    → (((with_dirty s p d).page_infos q).region_id ≡ (s.page_infos q).region_id)
      × (((with_dirty s p d).page_infos q).off ≡ (s.page_infos q).off)
      × (((with_dirty s p d).page_infos q).used_pages_it ≡ (s.page_infos q).used_pages_it)
with_dirty_same s p d q = elim (ℕ_discrete p q) [
  | yes e ↦ rw (← e, ==_refl p) (refl, refl, refl)
  | no n ↦ rw (ne→== p q n) (refl, refl, refl)
]

pub with_dirty-Inv :
    {nr : ℕ} {held : List ℕ} (s : DemoBufferManager) (p : ℕ) (d : Bool)
    → Inv nr held s
    → Inv nr held (with_dirty s p d)
with_dirty-Inv s p d v = record {
  frames = v.frames;
  backed = λ id i pte e pr.
      let hold : Holds s pte.nr id i = v.backed id i pte e pr in
      let (er, eo, ei) = with_dirty_same s p d pte.nr in
      record {
        in_use = hold.in_use;
        of_region = er ∙ hold.of_region;
        at_off = eo ∙ hold.at_off;
        iterator = ei ∙ hold.iterator;
      };
  owned = λ q h.
      let own : IsMapped s q = v.owned q h in
      let (er, eo, ei) = with_dirty_same s p d q in
      record {
        pte = own.pte;
        found = rw (er, eo) own.found;
        present = own.present;
        points = own.points;
      };
}

abbrev pub with_regions : DemoBufferManager → Map Region → DemoBufferManager
with_regions s rs = record s { regions = rs }

-- The invariant reads the present entries of the regions only.
pub with_regions-Inv :
    {nr : ℕ} {held : List ℕ} (s : DemoBufferManager) (rs rs' : Map Region)
    → Inv nr held (with_regions s rs)
    → ((id i : ℕ) (pte : RegionPte)
        → pte.present ≡ true
        → (pte_at rs' id i ≡ some pte → pte_at rs id i ≡ some pte)
          × (pte_at rs id i ≡ some pte → pte_at rs' id i ≡ some pte))
    → Inv nr held (with_regions s rs')
with_regions-Inv s rs rs' v same = record {
  frames = v.frames;
  backed = λ id i pte e pr.
      let hold : Holds (with_regions s rs) pte.nr id i =
        v.backed id i pte ((same id i pte pr).0 e) pr in
      record {
        in_use = hold.in_use;
        of_region = hold.of_region;
        at_off = hold.at_off;
        iterator = hold.iterator;
      };
  owned = λ q h.
      let own : IsMapped (with_regions s rs) q = v.owned q h in
      record {
        pte = own.pte;
        found = (same _ _ own.pte own.present).1 own.found;
        present = own.present;
        points = own.points;
      };
}
