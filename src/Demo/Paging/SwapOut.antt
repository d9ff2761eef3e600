-- ===== src/Demo/Paging/SwapOut.antt =====
-- What `swap_out_page` does, step by step: which page it takes, and how the state changes.
use mathlib.Core.Path.{subst}
use dasim.Base.{
  sym, List-cases, ℕ, ◌≡◌, refl, true, false, not, ◌&&◌, some, List, [], ◌∷◌, count, erase, lookup,
  ◌≤◌, if◌then◌else◌, >>=-eq-some, arith, inl, inr, Bool-cases, Option-cases, ◌⊎◌,
}
use dasim.Demo.Pte.{RegionPte, Region, make_swap, get_pte}
use dasim.Demo.PageIo.{Os}
use dasim.Demo.State.{DemoBufferManager, is_anon, set_pte}
use dasim.Demo.Paging.{find_from, find_swappable_page, swap_out_page_data, swap_out_page, page_out}

-- The page that the search stops at stands in the list, its region exists, and the swap index is
-- the back of the free swap entries for a page of anonymous memory, and else the page's offset.
pub record Found (s : DemoBufferManager) (it : List ℕ) (out : ℕ × ℕ × List ℕ) : Type 0 where
  pub member : 1 ≤ count out.0 it
  pub region : Region
  pub has_region : lookup (s.page_infos out.0).region_id s.regions ≡ some region
  pub choice :
      ((is_anon s region ≡ true) × (s.free_swap_entries ≡ out.1 ∷ out.2))
      ⊎ ((is_anon s region ≡ false)
          × (out.1 ≡ (s.page_infos out.0).off)
          × (out.2 ≡ s.free_swap_entries))

Found-tail :
    (s : DemoBufferManager) (page_nr : ℕ) (it : List ℕ) (out : ℕ × ℕ × List ℕ)
    → Found s it out
    → Found s (page_nr ∷ it) out
Found-tail s page_nr it out f = record {
  member = omega (arith, f.member);
  region = f.region;
  has_region = f.has_region;
  choice = f.choice;
}

pub find_from-Found :
    (s : DemoBufferManager) (it : List ℕ) (out : ℕ × ℕ × List ℕ)
    → find_from s it ≡ some out
    → Found s it out
unfolding find_from
find_from-Found s [] out e = absurd (cc)
find_from-Found s (page_nr ∷ it) out e =
    elim (Option-cases (lookup (s.page_infos page_nr).region_id s.regions)) [
      | inl n ↦ absurd (ground arith)
      | inr (r, f) ↦ elim (Bool-cases (is_anon s r)) [
        | inl anon ↦ elim (List-cases s.free_swap_entries) [
          | inl none_left ↦ Found-tail s page_nr it out (find_from-Found s it out (ground arith))
          | inr (ix, rest, g) ↦
              let o : out ≡ (page_nr, ix, rest) = ground arith in
              rw o (record {
                member = ground arith;
                region = r;
                has_region = f;
                choice = inl (anon, g);
              })
        ]
        | inr pers ↦
            let o : out ≡ (page_nr, (s.page_infos page_nr).off, s.free_swap_entries) =
              ground arith in
            rw o (record {
              member = ground arith;
              region = r;
              has_region = f;
              choice = inr (pers, refl, refl);
            })
      ]
    ]

-- The state of `page_out` before the page is written.
abbrev pub unwritten : DemoBufferManager → ℕ → ℕ → RegionPte → DemoBufferManager
unwritten s p ix pte = record s {
  used_pages = erase (s.page_infos p).used_pages_it s.used_pages;
  regions = set_pte s.regions (s.page_infos p).region_id (s.page_infos p).off (make_swap pte ix);
}

-- `page_out` marks the entry of page `p` as swapped to `ix`, and writes the page unless it is a
-- clean page of a persistent region.
pub record PagesOut (os : Os) (s : DemoBufferManager) (p ix : ℕ) (s' : DemoBufferManager)
    : Type 0 where
  pub region : Region
  pub has_region : lookup (s.page_infos p).region_id s.regions ≡ some region
  pub pte : RegionPte
  pub has_pte : get_pte region (s.page_infos p).off ≡ some pte
  pub written :
      (if not (is_anon s region) && not (s.page_infos p).dirty
        then some (unwritten s p ix pte)
        else swap_out_page_data os (unwritten s p ix pte) p region.swapfd ix)
      ≡ some s'

pub page_out-PagesOut :
    (os : Os) (s : DemoBufferManager) (p ix : ℕ) (s' : DemoBufferManager)
    → page_out os s p ix ≡ some s'
    → PagesOut os s p ix s'
unfolding page_out
page_out-PagesOut os s p ix s' e =
    let page = s.page_infos p in
    let (region, has_region, e1) = >>=-eq-some (lookup page.region_id s.regions) _ e in
    let (pte, has_pte, e2) = >>=-eq-some (get_pte region page.off) _ e1 in
    record { region = region; has_region = has_region; pte = pte; has_pte = has_pte; written = e2 }

-- `swap_out_page` finds a page, and pages it out.
pub record SwapsOut (os : Os) (s : DemoBufferManager) (p : ℕ) (s' : DemoBufferManager)
    : Type 0 where
  pub ix : ℕ
  pub rest : List ℕ
  pub found : Found s s.used_pages (p, ix, rest)
  pub paged : PagesOut os (record s { free_swap_entries = rest }) p ix s'

pub swap_out_page-SwapsOut :
    (os : Os) (s : DemoBufferManager) (p : ℕ) (s' : DemoBufferManager)
    → swap_out_page os s ≡ some (p, s')
    → SwapsOut os s p s'
unfolding swap_out_page find_swappable_page
swap_out_page-SwapsOut os s p s' e =
    let (t, e1, k1) = >>=-eq-some (find_swappable_page s) _ e in
    let (out, f, e2) = >>=-eq-some (find_from s s.used_pages) _ e1 in
    let (s2, w, k2) = >>=-eq-some (page_out os t.2 t.0 t.1) _ k1 in
    let ep : out.0 ≡ p = ground (arith, k2, e2) in
    let es : s2 ≡ s' = ground (arith, k2) in
    let et : (out.0, out.1, record s { free_swap_entries = out.2 }) ≡ t = ground (arith, e2) in
    let chosen : ℕ × ℕ × DemoBufferManager =
      (out.0, out.1, record s { free_swap_entries = out.2 }) in
    let w' : page_out os chosen.2 chosen.0 chosen.1 ≡ some s2 =
      subst (λ (u : ℕ × ℕ × DemoBufferManager). page_out os u.2 u.0 u.1 ≡ some s2) (sym et) w in
    rw (← ep, ← es)
      (record {
        ix = out.1;
        rest = out.2;
        found = find_from-Found s s.used_pages out f;
        paged = page_out-PagesOut os chosen.2 chosen.0 chosen.1 s2 w';
      })
