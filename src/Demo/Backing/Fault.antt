-- ===== src/Demo/Backing/Fault.antt =====
-- The parts of a page fault on an absent page.
use dasim.Base.{
  ℕ, ◌/◌, ◌≡◌, ◌∙◌, sym, inl, inr, Bool, true, false, some, some_inj, if◌then◌else◌, if_false,
  ◌>>=◌, >>=-eq-some, lookup, arith,
}
use dasim.Types.{page_size, UnfixResult}
use dasim.Demo.Pte.{RegionPte, Region, is_swapped, get_swap_ix, is_present, get_pte}
use dasim.Demo.PageIo.{Os}
use dasim.Demo.State.{DemoBufferManager, pte_at}
use dasim.Demo.State.Inv.{same-slot}
use dasim.Demo.Paging.{swap_in_page, take_page, map_page, unfix, unfix_absent}
use dasim.Demo.Backing.{fd_of, PageAt, Elsewhere}

-- The parts of a fault on an absent page.
pub record Fault (os : Os) (s : DemoBufferManager) (id poff : ℕ) (write : Bool) (pte : RegionPte)
    (fd : ℕ) (s' : DemoBufferManager) : Type 0 where
  pub s1 : DemoBufferManager
  pub swapped_in :
      (if is_swapped pte
        then (get_swap_ix pte >>= λ swap_ix. swap_in_page os s fd swap_ix)
        else some s)
      ≡ some s1
  pub p : ℕ
  pub t : DemoBufferManager
  pub taken : take_page os s1 ≡ some (p, t)
  pub region : Region
  pub res : UnfixResult
  pub mapped : map_page t region id poff write p ≡ some (res, s')

pub unfix-Fault :
    (os : Os) (s : DemoBufferManager) (id off : ℕ) (write : Bool) (pte : RegionPte)
    (res : UnfixResult) (s' : DemoBufferManager)
    → pte_at s.regions id (off / page_size) ≡ some pte
    → pte.present ≡ false
    → unfix os s id off write ≡ some (res, s')
    → (fd : ℕ) × PageAt s.regions id (off / page_size) pte fd
      × Fault os s id (off / page_size) write pte fd s'
unfolding unfix unfix_absent pte_at fd_of
unfix-Fault os s id off write pte res s' f absent e =
    let poff = off / page_size in
    let (region, has_region, e1) = >>=-eq-some (lookup id s.regions) _ e in
    let has_pte : get_pte region poff ≡ some pte = rw (has_region) at f in
    let e2 = rw (has_pte) at e1 in
    let e3 = sym (if_false (is_present pte) _ _ absent) ∙ e2 in
    let (s1, swapped_in, k1) =
      >>=-eq-some
        (if is_swapped pte
          then (get_swap_ix pte >>= λ swap_ix. swap_in_page os s region.swapfd swap_ix)
          else some s)
        _ e3 in
    let (t, taken, k2) = >>=-eq-some (take_page os s1) _ k1 in
    (
      region.swapfd,
      record { entry = f; backed_by = rw has_region },
      record {
        s1 = s1;
        swapped_in = swapped_in;
        p = t.0;
        t = t.1;
        taken = taken;
        region = region;
        res = res;
        mapped = k2;
      },
    )

-- A page that is present is another one than the page of the fault.
pub present-Elsewhere :
    (s : DemoBufferManager) (swapfd id poff : ℕ) (pte : RegionPte) (fd id' i' : ℕ)
    (pte' : RegionPte)
    → pte_at s.regions id poff ≡ some pte
    → pte.present ≡ false
    → pte_at s.regions id' i' ≡ some pte'
    → pte'.present ≡ true
    → Elsewhere swapfd id poff fd id' i'
present-Elsewhere s swapfd id poff pte fd id' i' pte' f absent f' present =
    elim (same-slot id poff id' i') [
      | inr other ↦ inl other
      | inl (er, eo) ↦
          let is = some_inj pte pte' (sym f ∙ rw (← er, ← eo) at f') in
          absurd (ground (arith, absent, present, is))
    ]
