-- ===== src/Demo/Backing/Grown.antt =====
-- New managers, and new regions.
use native.Mathlib.Decide.{ℕ_discrete}
use dasim.Base.{
  ℕ, zero, suc, ◌+◌, ◌/◌, ◌≤◌, ◌<◌, ◌≡◌, ◌≢◌, ◌∙◌, sym, ap, ◌⊎◌, inl, inr, Bool, true, false, some,
  some_inj, List, [], ◌∷◌, Bool-cases, Option-cases, lookup, arith, count, get_elem?, replicate,
}
use dasim.Types.{page_size}
use dasim.Demo.Pte.{RegionPte, new_region, make_swap_all, make_swap, empty_pte, get_pte}
use dasim.Demo.State.{DemoBufferManager, construct, pte_at, countdown}
use dasim.Demo.Backing.{fd_of, content, view, PageAt, Owns, Backing, Everywhere}

count-countdown : (n k : ℕ) → (count n (countdown k) ≤ 1) × ((n < k) ⊎ (count n (countdown k) ≡ 0))
count-countdown n zero = omega arith
count-countdown n (suc k) = ground (arith, count-countdown n k)

pub construct-Backing : (swapfd nr swap : ℕ) → Backing Everywhere (construct swapfd nr swap)
unfolding construct pte_at
construct-Backing swapfd nr swap = record {
  free_once = λ n. (count-countdown n swap).0;
  apart = λ id i id' i' fd n u u' o o'. absurd (ground (arith, o.page.entry));
  taken = λ id i n u o. absurd (ground (arith, o.page.entry));
  home = λ id i pte fd u at. absurd (ground (arith, at.entry));
  clean = λ id i pte fd u at. absurd (ground (arith, at.entry));
}

get_elem?-make_swap_all :
    (start : ℕ) (ptes : List RegionPte) (i : ℕ) (pte : RegionPte)
    → get_elem? (make_swap_all start ptes) i ≡ some pte
    → (pte.nr ≡ start + i) × (pte.present ≡ false) × (pte.swap ≡ true)
unfolding make_swap_all make_swap
get_elem?-make_swap_all start [] i pte e = absurd cc
get_elem?-make_swap_all start (q ∷ ptes) zero pte e = ground (arith, e)
get_elem?-make_swap_all start (q ∷ ptes) (suc i) pte e =
    let (at, out, swapped) = get_elem?-make_swap_all (start + 1) ptes i pte e in
    (omega (arith, at), out, swapped)

get_elem?-replicate :
    (n : ℕ) (i : ℕ) (pte : RegionPte)
    → get_elem? (replicate n empty_pte) i ≡ some pte
    → (pte.present ≡ false) × (pte.swap ≡ false)
get_elem?-replicate zero i pte e = absurd cc
get_elem?-replicate (suc n) zero pte e = ground (arith, e)
get_elem?-replicate (suc n) (suc i) pte e = get_elem?-replicate n i pte e

-- `s'` is `s` with region `id` more, whose file nobody else uses if it is persistent.
pub record Grows (s : DemoBufferManager) (id addr size fd : ℕ) (persistent : Bool)
    (s' : DemoBufferManager) : Type 0 where
  pub region : lookup id s'.regions ≡ some (new_region addr size fd persistent false)
  pub others : (j : ℕ) → id ≢ j → lookup j s'.regions ≡ lookup j s.regions
  pub swapfd : s'.swapfd ≡ s.swapfd
  pub infos : s'.page_infos ≡ s.page_infos
  pub free_swap : s'.free_swap_entries ≡ s.free_swap_entries
  pub shm : s'.shm ≡ s.shm
  pub files : (fd' : ℕ) → ((persistent ≡ false) ⊎ (fd ≢ fd')) → s'.files fd' ≡ s.files fd'
  pub own_file :
      ((persistent ≡ false) × (fd ≡ s.swapfd))
      ⊎ ((persistent ≡ true) × (fd ≢ s.swapfd) × ((j : ℕ) → fd_of s.regions j ≢ some fd))

module _ (s : DemoBufferManager) (id addr size fd : ℕ) (persistent : Bool) (s' : DemoBufferManager)
    (g : Grows s id addr size fd persistent s') where
  -- The pages of the new region are out, at their places if it is persistent.
  pub new-PageAt :
      (i : ℕ) (pte : RegionPte) (fd' : ℕ)
      → PageAt s'.regions id i pte fd'
      → (fd ≡ fd')
        × (pte.present ≡ false)
        × (pte.swap ≡ persistent)
        × ((persistent ≡ false) ⊎ (pte.nr ≡ i))
  unfolding pte_at fd_of get_pte new_region
  new-PageAt i pte fd' at =
      let e = rw (g.region) at at.entry in
      let same : fd ≡ fd' = some_inj _ _ (rw (g.region) at at.backed_by) in
      elim (Bool-cases persistent) [
        | inl file ↦
            let (at_i, out, swapped) =
              get_elem?-make_swap_all 0 (replicate (size / page_size) empty_pte) i pte
                (rw (file) at e) in
            (same, out, rw file swapped, inr (omega (arith, at_i)))
        | inr anon ↦
            let (out, fresh) = get_elem?-replicate (size / page_size) i pte (rw (anon) at e) in
            (same, out, rw anon fresh, inl anon)
      ]

  old-PageAt :
      (j i : ℕ) (pte : RegionPte) (fd' : ℕ)
      → id ≢ j
      → PageAt s'.regions j i pte fd'
      → PageAt s.regions j i pte fd'
  unfolding pte_at fd_of
  old-PageAt j i pte fd' ne at = record {
    entry = rw (g.others j ne) at at.entry;
    backed_by = rw (g.others j ne) at at.backed_by;
  }

  owned_new :
      (j i fd' n : ℕ)
      → Owns s'.regions s'.swapfd j i fd' n
      → ((id ≡ j) × (i ≡ n) × (fd ≡ fd') × (persistent ≡ true))
        ⊎ ((id ≢ j) × Owns s.regions s.swapfd j i fd' n)
  owned_new j i fd' n o = elim (ℕ_discrete id j) [
    | no ne ↦ inr (
      ne,
      record {
        pte = o.pte;
        page = old-PageAt j i o.pte fd' ne o.page;
        place = rw (← g.swapfd) o.place;
      },
    )
    | yes eq ↦
        let (same, out, swap, at_i) = new-PageAt i o.pte fd' (rw (← eq) at o.page) in
        inl (elim o.place [
          | inl (anon, _, swapped, at_n) ↦ elim g.own_file [
            | inl (fresh, _) ↦ absurd (ground (arith, swap, fresh, swapped))
            | inr (_, ne, _) ↦ absurd (ne (same ∙ anon ∙ g.swapfd))
          ]
          | inr (pers, at_n) ↦ elim g.own_file [
            | inl (_, anon) ↦ absurd (pers (sym same ∙ anon ∙ sym g.swapfd))
            | inr (file, _, _) ↦ (eq, at_n, same, file)
          ]
        ])
  ]

  -- The file of an old region is not the new one.
  old_file :
      (j i : ℕ) (pte : RegionPte) (fd' : ℕ)
      → PageAt s.regions j i pte fd'
      → (persistent ≡ false) ⊎ (fd ≢ fd')
  old_file j i pte fd' at = elim g.own_file [
    | inl (anon, _) ↦ inl anon
    | inr (_, _, unused) ↦ inr (λ eq. unused j (at.backed_by ∙ ap some (sym eq)))
  ]

  apart_new :
      (j i j' i' fd' n : ℕ)
      → (id ≡ j) × (i ≡ n) × (fd ≡ fd') × (persistent ≡ true)
      → Owns s.regions s.swapfd j' i' fd' n
      → ⊥
  apart_new j i j' i' fd' n (_, _, same, file) o = elim (old_file j' i' o.pte fd' o.page) [
    | inl anon ↦ ground (arith, file, anon)
    | inr ne ↦ ne same
  ]

  pub grown-Backing : Backing Everywhere s → Backing Everywhere s'
  grown-Backing b = record {
    free_once = λ n. rw g.free_swap (b.free_once n);
    apart = λ j i j' i' fd' n u u' o o'. elim (owned_new j i fd' n o) [
      | inl new ↦ elim (owned_new j' i' fd' n o') [
        | inl new' ↦ (sym new.0 ∙ new'.0, new.1 ∙ sym new'.1)
        | inr (_, old) ↦ absurd (apart_new j i j' i' fd' n new old)
      ]
      | inr (_, old) ↦ elim (owned_new j' i' fd' n o') [
        | inl new' ↦ absurd (apart_new j' i' j i fd' n new' old)
        | inr (_, old') ↦ b.apart j i j' i' fd' n u u' old old'
      ]
    ];
    taken = λ j i n u o. elim (owned_new j i s'.swapfd n o) [
      | inl (_, _, same, file) ↦ elim g.own_file [
        | inl (anon, _) ↦ absurd (ground (arith, file, anon))
        | inr (_, ne, _) ↦ absurd (ne (same ∙ g.swapfd))
      ]
      | inr (_, old) ↦ rw g.free_swap (b.taken j i n u (rw g.swapfd at old))
    ];
    home = λ j i pte fd' u at pers gone swapped. elim (ℕ_discrete id j) [
      | no ne ↦
          b.home j i pte fd' u (old-PageAt j i pte fd' ne at) (rw g.swapfd at pers) gone swapped
      | yes eq ↦
          let (_, _, swap, at_i) = new-PageAt i pte fd' (rw (← eq) at at) in
          elim at_i [ inl anon ↦ absurd (ground (arith, swap, anon, swapped)) | inr is ↦ is ]
    ];
    clean = λ j i pte fd' u at pers present flag k below. elim (ℕ_discrete id j) [
      | yes eq ↦
          let (_, out, _, _) = new-PageAt i pte fd' (rw (← eq) at at) in
          absurd (ground (arith, out, present))
      | no ne ↦
          let old = old-PageAt j i pte fd' ne at in
          rw (g.files fd' (old_file j i pte fd' old), g.shm)
            (b.clean j i pte fd' u old (rw g.swapfd at pers) present (rw g.infos at flag) k below)
    ];
  }

  -- The old regions show what they showed, and a page of the new one shows its file, or 'a'.
  pub grown-view : (j i k : ℕ) → id ≢ j → view s' j i k ≡ view s j i k
  unfolding view fd_of pte_at content
  grown-view j i k ne = elim (Option-cases (lookup j s.regions)) [
    | inl nothing ↦ rw (g.others j ne, nothing)
    | inr (r, f) ↦ elim (Option-cases (get_elem? r.ptes i)) [
      | inl nothing ↦ rw (g.others j ne, f, nothing, get_pte)
      | inr (pte, e) ↦
          let at : PageAt s.regions j i pte r.swapfd = record {
            entry = rw f e;
            backed_by = rw f;
          } in
          rw (g.others j ne, f, e, get_pte, g.files r.swapfd (old_file j i pte r.swapfd at), g.shm)
    ]
  ]
