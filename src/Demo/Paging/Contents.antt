-- ===== src/Demo/Paging/Contents.antt =====
-- What a page holds after a fault.
use dasim.Base.{
  ℕ, ◌+◌, ◌-◌, ◌*◌, ◌/◌, ◌<◌, ◌≡◌, ◌∙◌, refl, sym, ap, Bool, true, false, not, ◌&&◌, some, some_inj,
  if_false, [], List-cases, lookup, add64, if◌then◌else◌, ◌>>=◌, >>=-eq-some, arith, inl, inr,
  Bool-cases,
}
use dasim.Types.{page_size, UnfixResult}
use dasim.Demo.Pte.{RegionPte, Region, make_present, get_pte, is_swapped, get_swap_ix, is_present}
use dasim.Demo.PageIo.{Os, Bytes, blit, read_loop, page_fuel}
use dasim.Demo.PageIo.Transfers.{ReadsWhole, read_loop_page}
use dasim.Demo.State.{DemoBufferManager, pte_at}
use dasim.Demo.State.Slots.{pte_at-set_pte_self}
use dasim.Demo.State.Inv.{Inv}
use dasim.Demo.Paging.{swap_in_page, take_page, map_page, unfix_absent, unfix}
use dasim.Demo.Paging.SwapOut.{SwapsOut, swap_out_page-SwapsOut}
use dasim.Demo.Paging.Frames.{Takes, PagesOut-eq, swapped_in-eq, take_page-Takes}

blit_inside : (dst src : Bytes) (to n k : ℕ) → k < n → blit dst to src 0 n (to + k) ≡ src k
blit_inside dst src to n k below =
    let at : 0 + ((to + k) - to) ≡ k = omega arith in ground (arith, below, ap src at)

pub then_same :
    {A : Type 0} (b : Bool) (x y z : A)
    → (b ≡ true → x ≡ y)
    → (if b then x else z) ≡ (if b then y else z)
then_same true x y z h = h refl
then_same false x y z h = refl

-- What the temporary page holds after the first part of `unfix`.
pub swapped_in-fills :
    (os : Os) (s : DemoBufferManager) (fd : ℕ) (pte : RegionPte) (s' : DemoBufferManager)
    → ReadsWhole os
    → (if is_swapped pte
        then (get_swap_ix pte >>= λ swap_ix. swap_in_page os s fd swap_ix)
        else some s)
      ≡ some s'
    → pte.swap ≡ true
    → (k : ℕ) → k < page_size
    → s'.tmp_page k ≡ s.files fd (pte.nr * page_size + k)
unfolding is_swapped get_swap_ix swap_in_page
swapped_in-fills os s fd pte s' whole e swapped k below =
    let e1 = rw (swapped) at e in
    let (tmp, done, e2) =
      >>=-eq-some (read_loop os page_fuel fd (s.files fd) (pte.nr * page_size) 0 s.tmp_page) _ e1 in
    let is =
      some_inj _ _
        (sym done ∙ read_loop_page os fd (s.files fd) s.tmp_page (pte.nr * page_size) whole) in
    rw (← some_inj _ _ e2, is) (ground (arith))

pub take_page-tmp :
    (os : Os) (s : DemoBufferManager) (p : ℕ) (s' : DemoBufferManager)
    → take_page os s ≡ some (p, s')
    → s'.tmp_page ≡ s.tmp_page
unfolding take_page
take_page-tmp os s p s' e = elim (List-cases s.free_pages) [
  | inl full ↦
      let out : SwapsOut os s p s' = swap_out_page-SwapsOut os s p s' (rw (full, take_page) at e) in
      let t : DemoBufferManager = record s { free_swap_entries = out.rest } in
      ap (λ (u : DemoBufferManager). u.tmp_page) (PagesOut-eq os t p out.ix s' out.paged)
  | inr (q, rest, free) ↦
      let k = some_inj _ _ (rw (free, take_page) at e) in
      sym (ap (λ (u : ℕ × DemoBufferManager). u.1.tmp_page) k)
]

-- The page that `map_page` maps.
record Filled (s : DemoBufferManager) (region : Region) (id poff : ℕ) (write : Bool)
    (pte : RegionPte) (p : ℕ) (res : UnfixResult) (s' : DemoBufferManager) : Type 0 where
  entry : pte_at s'.regions id poff ≡ some (make_present pte p)
  bytes :
      (k : ℕ)
      → k < page_size
      → s'.shm (p * page_size + k) ≡ (if pte.swap then s.tmp_page k else b'a')
  result : res ≡ record {
    from = add64 region.addr (poff * page_size);
    size = page_size;
    mapping_changed = true;
    writeprotect = pte.swap && not write;
  }

map_page-Filled :
    (s : DemoBufferManager) (region : Region) (id poff : ℕ) (write : Bool) (p : ℕ) (pte : RegionPte)
    (res : UnfixResult) (s' : DemoBufferManager)
    → pte_at s.regions id poff ≡ some pte
    → map_page s region id poff write p ≡ some (res, s')
    → Filled s region id poff write pte p res s'
unfolding map_page is_swapped
map_page-Filled s region id poff write p pte res s' f e =
    let k = some_inj _ _ (rw (f, map_page) at e) in
    let es = ap (λ (u : UnfixResult × DemoBufferManager). u.1) k in
    let er = ap (λ (u : UnfixResult × DemoBufferManager). u.0) k in
    rw (← es, ← er)
      (record {
        entry = pte_at-set_pte_self s.regions id poff (make_present pte p) pte f;
        bytes = λ k below.
            blit_inside s.shm (if pte.swap then s.tmp_page else (λ _. b'a')) (p * page_size)
              page_size k below
            ∙ elim (Bool-cases pte.swap) [ inl is ↦ rw is | inr isnt ↦ rw isnt ];
        result = elim (Bool-cases pte.swap) [ inl is ↦ rw is | inr isnt ↦ rw isnt ];
      })

-- A fault on an absent page maps it to some frame and fills that frame: with the page of the
-- swap file that its entry names if it was swapped out, else with 'a'. The result names the page,
-- asks for a new mapping, and asks for write protection just where the page was swapped out and is
-- only read. This takes the frame invariant, a system that reads a whole page at once, and a fault
-- that is served.
pub unfix-fills :
    {nr : ℕ} (os : Os) (s : DemoBufferManager) (id off : ℕ) (write : Bool) (region : Region)
    (pte : RegionPte) (res : UnfixResult) (s' : DemoBufferManager)
    → Inv nr [] s
    → ReadsWhole os
    → lookup id s.regions ≡ some region
    → get_pte region (off / page_size) ≡ some pte
    → pte.present ≡ false
    → unfix os s id off write ≡ some (res, s')
    → (p : ℕ) × (pte_at s'.regions id (off / page_size) ≡ some (make_present pte p))
      × ((k : ℕ)
          → k < page_size
          → s'.shm (p * page_size + k)
            ≡ (if pte.swap then s.files region.swapfd (pte.nr * page_size + k) else b'a'))
      × (res ≡ record {
        from = add64 region.addr ((off / page_size) * page_size);
        size = page_size;
        mapping_changed = true;
        writeprotect = pte.swap && not write;
      })
unfolding unfix unfix_absent pte_at
unfix-fills {nr} os s id off write region pte res s' v whole has_region has_pte absent e =
    let poff = off / page_size in
    let f : pte_at s.regions id poff ≡ some pte = rw has_region has_pte in
    let e1 = rw (has_region) at e in
    let e2 = rw (has_pte) at e1 in
    let e3 = sym (if_false (is_present pte) _ _ absent) ∙ e2 in
    let (s1, swapped_in, k1) =
      >>=-eq-some
        (if is_swapped pte
          then (get_swap_ix pte >>= λ swap_ix. swap_in_page os s region.swapfd swap_ix)
          else some s)
        _ e3 in
    let (t, taken, k2) = >>=-eq-some (take_page os s1) _ k1 in
    let same = swapped_in-eq os s region.swapfd pte s1 swapped_in in
    let v1 : Inv nr [] s1 = rw same v in
    let f1 : pte_at s1.regions id poff ≡ some pte =
      ap (λ (u : DemoBufferManager). pte_at u.regions id poff) same ∙ f in
    let takes : Takes nr s1 t.0 t.1 = take_page-Takes nr os s1 t.0 t.1 v1 taken in
    let filled =
      map_page-Filled t.1 region id poff write t.0 pte res s' (takes.keeps id poff pte f1 absent)
        k2 in
    (
      t.0,
      filled.entry,
      λ k below.
          filled.bytes k below
          ∙ then_same pte.swap _ _ b'a' (λ swapped.
            ap (λ (b : Bytes). b k) (take_page-tmp os s1 t.0 t.1 taken)
            ∙ swapped_in-fills os s region.swapfd pte s1 whole swapped_in swapped k below),
      filled.result,
    )
