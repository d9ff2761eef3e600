-- ===== src/Demo/Backing/Gone.antt =====
-- Freeing a region keeps the bytes that the other regions show.
use native.Mathlib.Decide.{ℕ_discrete}
use dasim.Base.{
  add64, ℕ, ◌+◌, ◌*◌, ◌<◌, ◌≡◌, ◌≢◌, ◌∙◌, refl, sym, ap, inl, inr, false, some, some_inj, none, [],
  if◌then◌else◌, if_false, >>=-eq-some, Bool-cases, Option-cases, lookup, arith, ◌==◌, ne→==,
  ==_refl, get_elem?, remove, lookup-remove, ◌/◌,
}
use dasim.Types.{page_size}
use dasim.Demo.Pte.{RegionPte, Region}
use dasim.Demo.PageIo.{Os, Bytes}
use dasim.Demo.PageIo.Transfers.{WritesMove}
use dasim.Demo.State.{DemoBufferManager, pte_at, is_anon}
use dasim.Demo.State.Slots.{pte_at-remove_self, pte_at-remove_ne}
use dasim.Demo.State.Inv.{Inv}
use dasim.Demo.Regions.{free_ptes, free}
use dasim.Demo.Regions.Free.{free_ptes-regions}
use dasim.Demo.Backing.{fd_of, content, view, PageAt, Owns, Backing, Everywhere}
use dasim.Demo.Backing.Places.{swapped-Owns}
use dasim.Demo.Backing.Freed.{Freeing, free_ptes-Freeing}

module _ {nr : ℕ} (os : Os) (moves : WritesMove os) (s : DemoBufferManager) (v : Inv nr [] s)
    (b : Backing Everywhere s) (id : ℕ) (region : Region) (n : ℕ) (u : DemoBufferManager)
    (f : Freeing os moves s v b id region n u) (gone : u.regions ≡ remove id s.regions) where
  fd_of-gone : (j : ℕ) → id ≢ j → fd_of u.regions j ≡ fd_of s.regions j
  unfolding fd_of
  fd_of-gone j ne = rw (gone, lookup-remove id j s.regions, ne→== id j ne)

  pte_at-gone : (j i : ℕ) → id ≢ j → pte_at u.regions j i ≡ pte_at s.regions j i
  pte_at-gone j i ne = rw gone (pte_at-remove_ne s.regions id j i ne)

  -- What is left are the pages of other regions.
  left-PageAt :
      (j i : ℕ) (pte : RegionPte) (fd : ℕ)
      → PageAt u.regions j i pte fd
      → (id ≢ j) × PageAt s.regions j i pte fd
  left-PageAt j i pte fd at = elim (ℕ_discrete id j) [
    | yes eq ↦
        let nothing : pte_at u.regions j i ≡ none =
          rw (gone, ← eq) (pte_at-remove_self s.regions id i) in
        absurd (ground (arith, nothing, at.entry))
    | no ne ↦ (
      ne,
      record {
        entry = sym (pte_at-gone j i ne) ∙ at.entry;
        backed_by = sym (fd_of-gone j ne) ∙ at.backed_by;
      },
    )
  ]

  left-Owns :
      (j i fd n : ℕ)
      → Owns u.regions u.swapfd j i fd n
      → (id ≢ j) × Owns s.regions s.swapfd j i fd n
  left-Owns j i fd n o =
      let (ne, at) = left-PageAt j i o.pte fd o.page in
      (ne, record { pte = o.pte; page = at; place = rw (← f.swapfd) o.place })

  -- Places of other regions are none of the region that is freed.
  foreign :
      (j i fd n : ℕ)
      → id ≢ j
      → Owns s.regions s.swapfd j i fd n
      → (i' : ℕ) → ¬ Owns s.regions s.swapfd id i' fd n
  foreign j i fd n ne o i' o' = ne (b.apart id i' j i fd n tt tt o' o).0

  left_kept :
      (j i fd n : ℕ)
      → id ≢ j
      → Owns s.regions s.swapfd j i fd n
      → (k : ℕ) → k < page_size
      → u.files fd (n * page_size + k) ≡ s.files fd (n * page_size + k)
  left_kept j i fd n ne o = f.files fd n (foreign j i fd n ne o)

  pub gone-Backing : Backing Everywhere u
  gone-Backing = record {
    free_once = f.free_once;
    apart = λ j i j' i' fd n u1 u2 o o'.
        b.apart j i j' i' fd n tt tt (left-Owns j i fd n o).1 (left-Owns j' i' fd n o').1;
    taken = λ j i n u1 o.
        let (ne, old) = left-Owns j i u.swapfd n o in
        let old' = rw f.swapfd at old in
        f.free_swap n (foreign j i s.swapfd n ne old') ∙ b.taken j i n tt old';
    home = λ j i pte fd u1 at pers.
        b.home j i pte fd tt (left-PageAt j i pte fd at).1 (rw f.swapfd at pers);
    clean = λ j i pte fd u1 at pers present flag k below.
        let (ne, old) = left-PageAt j i pte fd at in
        let pers' = rw f.swapfd at pers in
        let o : Owns s.regions s.swapfd j i fd i = record {
          pte = pte;
          page = old;
          place = inr (pers', refl);
        } in
        left_kept j i fd i ne o k below
        ∙ b.clean j i pte fd tt old pers' present (rw f.infos at flag) k below
        ∙ sym (ap (λ (bytes : Bytes). bytes (pte.nr * page_size + k)) f.shm);
  }

  left-content :
      (j i : ℕ) (pte : RegionPte) (fd : ℕ)
      → id ≢ j
      → PageAt s.regions j i pte fd
      → (k : ℕ) → k < page_size
      → content u fd pte k ≡ content s fd pte k
  unfolding content
  left-content j i pte fd ne at k below = elim (Bool-cases pte.present) [
    | inl is ↦ rw (is, f.shm)
    | inr out ↦ elim (Bool-cases pte.swap) [
      | inr fresh ↦ rw (out, fresh)
      | inl swapped ↦
          let o = swapped-Owns {Among = Everywhere} s j i pte fd b tt at out swapped in
          rw (out, swapped) (left_kept j i fd pte.nr ne o k below)
    ]
  ]

  pub gone-view :
      (j i k : ℕ) → k < page_size → view u j i k ≡ (if id == j then none else view s j i k)
  unfolding view
  gone-view j i k below = elim (ℕ_discrete id j) [
    | yes eq ↦ rw (← eq, ==_refl id, gone, pte_at-remove_self s.regions id i)
    | no ne ↦
        rw (ne→== id j ne, pte_at-gone j i ne, fd_of-gone j ne)
          (elim (Option-cases (pte_at s.regions j i)) [
            | inl nothing ↦ rw nothing
            | inr (pte, e) ↦ elim (Option-cases (fd_of s.regions j)) [
              | inl nothing ↦ rw (e, nothing)
              | inr (fd, g) ↦
                  rw (e, g)
                    (ap some
                      (left-content j i pte fd ne (record { entry = e; backed_by = g }) k below))
            ]
          ])
  ]

-- The number of available pages does not matter.
available-Backing :
    (s : DemoBufferManager) (a : ℕ)
    → Backing Everywhere s
    → Backing Everywhere (record s { nr_available_pages = a })
available-Backing s a b = record {
  free_once = b.free_once;
  apart = b.apart;
  taken = b.taken;
  home = b.home;
  clean = b.clean;
}

available-view :
    (s : DemoBufferManager) (a j i k : ℕ)
    → view (record s { nr_available_pages = a }) j i k ≡ view s j i k
unfolding view content
available-view s a j i k = refl

-- `free` of a region that is not anchored.
pub free-Gone :
    {nr : ℕ} (os : Os) (s : DemoBufferManager) (id : ℕ) (region : Region) (s' : DemoBufferManager)
    → WritesMove os
    → Inv nr [] s
    → Backing Everywhere s
    → lookup id s.regions ≡ some region
    → region.anchored ≡ false
    → free os s id ≡ some s'
    → Backing Everywhere s'
      × ((j i k : ℕ) → k < page_size → view s' j i k ≡ (if id == j then none else view s j i k))
unfolding free is_anon pte_at fd_of
free-Gone os s id region s' moves v b found loose e =
    let left : DemoBufferManager = record s { regions = remove id s.regions } in
    let e1 = rw (found, free) at e in
    let (u, loop, k) =
      >>=-eq-some (free_ptes os region region.ptes left) _ (sym (if_false _ _ _ loose) ∙ e1) in
    let start : Freeing os moves s v b id region 0 left = record {
      swapfd = refl;
      infos = refl;
      shm = refl;
      files = λ fd n foreign k below. refl;
      free_swap = λ n foreign. refl;
      free_once = b.free_once;
      to_come = λ i n lt o. b.taken id i n tt o;
    } in
    let at = λ (i : ℕ) (pte : RegionPte) (g : get_elem? region.ptes i ≡ some pte).
      let here : PageAt s.regions id i pte region.swapfd = record {
        entry = rw found g;
        backed_by = rw found;
      } in
      let same : 0 + i ≡ i = omega arith in
      let there : PageAt s.regions id (0 + i) pte region.swapfd = rw same here in there in
    let (n, f) = free_ptes-Freeing os moves s v b id region region.ptes 0 left u at start loop in
    let gone = free_ptes-regions os region region.ptes left u loop in
    let backing = gone-Backing os moves s v b id region n u f gone in
    let shows = gone-view os moves s v b id region n u f gone in
    elim (Bool-cases (region.swapfd == u.swapfd)) [
      | inr pers ↦ rw (← some_inj _ _ k, pers) (backing, shows)
      | inl anon ↦
          rw (← some_inj _ _ k, anon)
            (
              available-Backing u (add64 u.nr_available_pages (region.size / page_size)) backing,
              λ j i k below.
                  available-view u (add64 u.nr_available_pages (region.size / page_size)) j i k
                  ∙ shows j i k below,
            )
    ]
