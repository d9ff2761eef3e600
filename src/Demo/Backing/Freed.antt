-- ===== src/Demo/Backing/Freed.antt =====
-- The loop of `free` over the pages of a region.
use native.Mathlib.Nat.{add-zero}
use dasim.Base.{
  eq→==, ℕ, suc, ◌+◌, ◌*◌, ◌≤◌, ◌<◌, ◌≡◌, ◌≢◌, ◌∙◌, refl, sym, ap, ◌⊎◌, inl, inr, Bool, true, false,
  not, ◌&&◌, some, some_inj, List, [], ◌∷◌, count, if◌then◌else◌, if_true, if_false, ◌>>=◌,
  Bool-cases, Option-cases, arith, ◌==◌, ==→eq, get_elem?,
}
use dasim.Types.{page_size}
use dasim.Demo.Pte.{RegionPte, Region, get_swap_ix}
use dasim.Demo.PageIo.{Os}
use dasim.Demo.PageIo.Transfers.{WritesMove}
use dasim.Demo.State.{DemoBufferManager, PageInfo, is_anon}
use dasim.Demo.State.Inv.{Inv, same-slot}
use dasim.Demo.Paging.{swap_out_page_data}
use dasim.Demo.Paging.Frames.{swap_out_page_data-eq}
use dasim.Demo.Regions.{free_pte, free_ptes, free}
use dasim.Demo.Regions.Free.{gave_back}
use dasim.Demo.Backing.{PageAt, Owns, Backing, Everywhere}
use dasim.Demo.Backing.TakeFrame.{swap_out_page_data-keeps}

both : (a b : Bool) → (a && b) ≡ true → (a ≡ true) × (b ≡ true)
both true b h = (refl, h)
both false b h = absurd (cc)

module _ {nr : ℕ} (os : Os) (moves : WritesMove os) (s : DemoBufferManager) (v : Inv nr [] s)
    (b : Backing Everywhere s) (id : ℕ) (region : Region) where
  abbrev pub fd : ℕ
  fd = region.swapfd

  -- Nothing of the region that is freed is at a place.
  abbrev pub Foreign : ℕ → ℕ → Type 0
  Foreign fd' n = (i : ℕ) → ¬ Owns s.regions s.swapfd id i fd' n

  -- The loop of `free` at page `j`: other places of files are as before, and so are other free swap
  -- entries; no entry is free twice, and none that belongs to a page to come is free.
  pub record Freeing (j : ℕ) (t : DemoBufferManager) : Type 0 where
    pub swapfd : t.swapfd ≡ s.swapfd
    pub infos : t.page_infos ≡ s.page_infos
    pub shm : t.shm ≡ s.shm
    pub files :
        (fd' n : ℕ)
        → Foreign fd' n
        → (k : ℕ) → k < page_size
        → t.files fd' (n * page_size + k) ≡ s.files fd' (n * page_size + k)
    pub free_swap :
        (n : ℕ) → Foreign s.swapfd n → count n t.free_swap_entries ≡ count n s.free_swap_entries
    pub free_once : (n : ℕ) → count n t.free_swap_entries ≤ 1
    pub to_come :
        (i n : ℕ)
        → j ≤ i
        → Owns s.regions s.swapfd id i s.swapfd n
        → count n t.free_swap_entries ≡ 0

  module _ (j : ℕ) (pte : RegionPte) (at : PageAt s.regions id j pte fd) (t : DemoBufferManager)
      (f : Freeing j t) where
    -- An entry that leaves the files and the swap entries as they are.
    passed :
        (used free : List ℕ) → Freeing (j + 1) (record t { used_pages = used; free_pages = free })
    passed used free = record {
      swapfd = f.swapfd;
      infos = f.infos;
      shm = f.shm;
      files = f.files;
      free_swap = f.free_swap;
      free_once = f.free_once;
      to_come = λ i n lt. f.to_come i n (omega (arith, lt));
    }

    -- A dirty page of a persistent region is written to its place.
    wrote_page :
        (p : ℕ) (u u' : DemoBufferManager)
        → Freeing (j + 1) u
        → (fd ≢ s.swapfd)
        → swap_out_page_data os u p fd j ≡ some u'
        → Freeing (j + 1) u'
    wrote_page p u u' g pers e =
        let same = swap_out_page_data-eq os u p fd j u' e in
        rw same (record {
          swapfd = g.swapfd;
          infos = g.infos;
          shm = g.shm;
          files = λ fd' n foreign k below.
              let apart : (fd ≢ fd') ⊎ (j ≢ n) = elim (same-slot fd j fd' n) [
                | inr other ↦ other
                | inl (ef, en) ↦ absurd (
                    foreign j
                      (rw (← ef, ← en) (record { pte = pte; page = at; place = inr (pers, refl) })))
              ] in
              swap_out_page_data-keeps os u p fd j u' moves e fd' n k apart below
              ∙ g.files fd' n foreign k below;
          free_swap = g.free_swap;
          free_once = g.free_once;
          to_come = g.to_come;
        })

    -- The entry of a swapped page of anonymous memory becomes free.
    pushed :
        fd ≡ s.swapfd
        → pte.present ≡ false
        → pte.swap ≡ true
        → Freeing (j + 1) (record t { free_swap_entries = pte.nr ∷ t.free_swap_entries })
    pushed anon absent swapped =
        let mine : Owns s.regions s.swapfd id j s.swapfd pte.nr = record {
          pte = pte;
          page = rw anon at at;
          place = inl (refl, absent, swapped, refl);
        } in
        let unused = f.to_come j pte.nr (omega arith) mine in
        record {
          swapfd = f.swapfd;
          infos = f.infos;
          shm = f.shm;
          files = f.files;
          free_swap = λ n foreign.
              let ne : pte.nr ≢ n = λ eq. foreign j (rw (← eq) mine) in
              ground (arith, ne, f.free_swap n foreign);
          free_once = λ n. ground (arith, f.free_once n, unused);
          to_come = λ i n lt o.
              let ne : pte.nr ≢ n = λ eq.
                absurd
                  (omega (arith, lt, (b.apart id j id i s.swapfd n tt tt (rw eq at mine) o).1)) in
              ground (arith, ne, f.to_come i n (omega (arith, lt)) o);
        }

    free_pte-Freeing :
        (u : DemoBufferManager) → free_pte os region pte t ≡ some u → Freeing (j + 1) u
    unfolding free_pte is_anon
    free_pte-Freeing u e = elim (Bool-cases pte.present) [
      | inl present ↦
          let p = pte.nr in
          let info = t.page_infos p in
          let back = gave_back t p in
          let at_j : info.off ≡ j =
            ap (λ (infos : ℕ → PageInfo). (infos p).off) f.infos
            ∙ (v.backed id j pte at.entry present).at_off in
          let e1 : (if not (fd == t.swapfd) && info.dirty
                then swap_out_page_data os back p fd info.off
                else some back)
              ≡ some u =
            rw (present, free_pte) at e in
          elim (Bool-cases (not (fd == t.swapfd) && info.dirty)) [
            | inr keep ↦
                rw (← some_inj _ _ (sym (if_false _ _ _ keep) ∙ e1))
                  (passed back.used_pages back.free_pages)
            | inl write ↦
                let pers : fd ≢ s.swapfd =
                  λ anon. absurd (ground (arith, write, eq→== fd t.swapfd (anon ∙ sym f.swapfd))) in
                wrote_page p back u (passed back.used_pages back.free_pages) pers
                  (rw at_j at (sym (if_true _ _ _ write) ∙ e1))
          ]
      | inr absent ↦
          let e1 : (if pte.swap && (fd == t.swapfd)
                then (get_swap_ix pte >>= λ ix.
                    some (record t { free_swap_entries = ix ∷ t.free_swap_entries }))
                else some t)
              ≡ some u =
            rw (absent, free_pte) at e in
          elim (Bool-cases (pte.swap && (fd == t.swapfd))) [
            | inr keep ↦
                rw (← some_inj _ _ (sym (if_false _ _ _ keep) ∙ e1))
                  (passed t.used_pages t.free_pages)
            | inl push ↦
                let (swapped, anon) = both pte.swap (fd == t.swapfd) push in
                let e2 = sym (if_true _ _ _ push) ∙ e1 in
                let e3 : some (record t { free_swap_entries = pte.nr ∷ t.free_swap_entries })
                    ≡ some u =
                  rw (swapped, get_swap_ix) at e2 in
                rw (← some_inj _ _ e3) (pushed (==→eq fd t.swapfd anon ∙ f.swapfd) absent swapped)
          ]
    ]

  pub free_ptes-Freeing :
      (ptes : List RegionPte) (j : ℕ) (t u : DemoBufferManager)
      → ((k : ℕ) (pte : RegionPte)
          → get_elem? ptes k ≡ some pte
          → PageAt s.regions id (j + k) pte fd)
      → Freeing j t
      → free_ptes os region ptes t ≡ some u
      → (n : ℕ) × Freeing n u
  unfolding free_ptes
  free_ptes-Freeing [] j t u at f e = (j, rw (← some_inj _ _ e) f)
  free_ptes-Freeing (pte ∷ ptes) j t u at f e = elim (Option-cases (free_pte os region pte t)) [
    | inl nothing ↦ let k = rw (nothing, free_ptes) at e in absurd (ground (arith, k))
    | inr (t1, e1) ↦
        let here : PageAt s.regions id j pte fd = rw (← add-zero j) (at 0 pte refl) in
        free_ptes-Freeing ptes (j + 1) t1 u
          (λ k q g. let next : j + suc k ≡ j + 1 + k = omega arith in rw (← next) (at (suc k) q g))
          (free_pte-Freeing j pte here t f t1 e1) (rw (e1, free_ptes) at e)
  ]
