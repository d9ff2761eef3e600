-- ===== src/Demo/Backing/PageOut.antt =====
-- Paging a page out keeps the bytes that every region shows.
use dasim.Base.{
  ℕ, ◌+◌, ◌*◌, ◌≤◌, ◌<◌, ◌≡◌, ◌≢◌, ◌∙◌, refl, sym, ap, ◌⊎◌, inl, inr, true, some, some_inj, List,
  ◌∷◌, count, Bool-cases, Option-cases, arith, ◌==◌, ==→eq, ==→ne,
}
use dasim.Types.{page_size}
use dasim.Demo.Pte.{RegionPte, make_swap}
use dasim.Demo.PageIo.{Bytes}
use dasim.Demo.State.{DemoBufferManager, pte_at, set_pte}
use dasim.Demo.State.Slots.{pte_at-set_pte_self, pte_at-set_pte_ne}
use dasim.Demo.State.Inv.{same-slot}
use dasim.Demo.Backing.{fd_of, content, view, PageAt, Owns, Backing}
use dasim.Demo.Backing.Places.{fd_of-set_pte, swapped-Owns, view-PageAt}

-- Page `i` of region `id`, in frame `p`, gets place `ix` of its file `fd`: nobody else has it, the
-- bytes are there afterwards, and every other place keeps its bytes.
pub record Leaves (Among : ℕ → ℕ → Type 0) (s : DemoBufferManager) (id i p fd ix : ℕ)
    (rest : List ℕ) (files : ℕ → Bytes) : Type 0 where
  pub pte : RegionPte
  pub page : PageAt s.regions id i pte fd
  pub present : pte.present ≡ true
  pub frame : pte.nr ≡ p
  pub among : Among id i
  pub choice :
      ((fd ≡ s.swapfd) × (s.free_swap_entries ≡ ix ∷ rest))
      ⊎ ((fd ≢ s.swapfd) × (ix ≡ i) × (rest ≡ s.free_swap_entries))
  pub written : (k : ℕ) → k < page_size → files fd (ix * page_size + k) ≡ s.shm (p * page_size + k)
  pub kept :
      (fd' n k : ℕ)
      → (fd ≢ fd') ⊎ (ix ≢ n)
      → k < page_size
      → files fd' (n * page_size + k) ≡ s.files fd' (n * page_size + k)

module _ (Among : ℕ → ℕ → Type 0) (s : DemoBufferManager) (b : Backing Among s) (id i p fd ix : ℕ)
    (rest used : List ℕ) (files : ℕ → Bytes) (l : Leaves Among s id i p fd ix rest files) where
  abbrev pub paged : DemoBufferManager
  paged = record s {
    free_swap_entries = rest;
    used_pages = used;
    regions = set_pte s.regions id i (make_swap l.pte ix);
    files = files;
  }

  -- The page itself, and the other pages, in the new state.
  self-PageAt : PageAt paged.regions id i (make_swap l.pte ix) fd
  self-PageAt = record {
    entry = pte_at-set_pte_self s.regions id i (make_swap l.pte ix) l.pte l.page.entry;
    backed_by = fd_of-set_pte s.regions id i (make_swap l.pte ix) id ∙ l.page.backed_by;
  }

  other-PageAt :
      (id' i' : ℕ) (pte : RegionPte) (fd' : ℕ)
      → (id ≢ id') ⊎ (i ≢ i')
      → PageAt paged.regions id' i' pte fd'
      → PageAt s.regions id' i' pte fd'
  other-PageAt id' i' pte fd' other at = record {
    entry = sym (pte_at-set_pte_ne s.regions id i (make_swap l.pte ix) id' i' other) ∙ at.entry;
    backed_by = sym (fd_of-set_pte s.regions id i (make_swap l.pte ix) id') ∙ at.backed_by;
  }

  -- In the new state the page has just the entry and the file that it got.
  self_only :
      (pte : RegionPte) (fd' : ℕ)
      → PageAt paged.regions id i pte fd'
      → (make_swap l.pte ix ≡ pte) × (fd ≡ fd')
  self_only pte fd' at = (
    some_inj _ _ (sym self-PageAt.entry ∙ at.entry),
    some_inj _ _ (sym self-PageAt.backed_by ∙ at.backed_by),
  )

  abbrev Mine : ℕ → ℕ → ℕ → ℕ → Type 0
  Mine id' i' fd' n = (id ≡ id') × (i ≡ i') × (fd ≡ fd') × (ix ≡ n)

  -- What is owned afterwards is the place of the page, or was owned before by another page.
  owned_after :
      (id' i' fd' n : ℕ)
      → Owns paged.regions s.swapfd id' i' fd' n
      → Mine id' i' fd' n ⊎ (((id ≢ id') ⊎ (i ≢ i')) × Owns s.regions s.swapfd id' i' fd' n)
  unfolding make_swap
  owned_after id' i' fd' n o = elim (same-slot id i id' i') [
    | inl (er, eo) ↦
        let (is, same) = self_only o.pte fd' (rw (← er, ← eo) at o.page) in
        inl (
          er,
          eo,
          same,
          elim o.place [
            | inl (_, _, _, at_n) ↦ ap (λ (q : RegionPte). q.nr) is ∙ at_n
            | inr (pers, at_n) ↦ elim l.choice [
              | inl (anon, _) ↦ absurd (pers (sym same ∙ anon))
              | inr (_, at_i, _) ↦ at_i ∙ eo ∙ at_n
            ]
          ],
        )
    | inr other ↦ inr (
      other,
      record { pte = o.pte; page = other-PageAt id' i' o.pte fd' other o.page; place = o.place },
    )
  ]

  -- Nobody else has the place.
  mine-apart :
      (id' i' n : ℕ)
      → Among id' i'
      → (id ≢ id') ⊎ (i ≢ i')
      → Owns s.regions s.swapfd id' i' fd n
      → ix ≢ n
  mine-apart id' i' n u other o eq = elim l.choice [
    | inl (anon, free) ↦
        let none_free = b.taken id' i' n u (rw anon at o) in
        absurd (ground (arith, none_free, ap (count n) free, eq))
    | inr (pers, at_i, _) ↦
        let mine : Owns s.regions s.swapfd id i fd n = record {
          pte = l.pte;
          page = l.page;
          place = inr (pers, sym at_i ∙ eq);
        } in
        let same = b.apart id i id' i' fd n l.among u mine o in
        elim other [ inl k ↦ k same.0 | inr k ↦ k same.1 ]
  ]

  -- So the bytes of other places are still there.
  other-kept :
      (id' i' fd' n : ℕ)
      → Among id' i'
      → (id ≢ id') ⊎ (i ≢ i')
      → Owns s.regions s.swapfd id' i' fd' n
      → (k : ℕ) → k < page_size
      → files fd' (n * page_size + k) ≡ s.files fd' (n * page_size + k)
  other-kept id' i' fd' n u other o k below = elim (Bool-cases (fd == fd')) [
    | inl same ↦
        let eq = ==→eq fd fd' same in
        l.kept fd' n k (inr (mine-apart id' i' n u other (rw (← eq) at o))) below
    | inr ne ↦ l.kept fd' n k (inl (==→ne fd fd' ne)) below
  ]

  -- Every page shows the bytes that it showed before.
  pub content-after :
      (id' i' : ℕ) (pte : RegionPte) (fd' : ℕ)
      → Among id' i'
      → PageAt paged.regions id' i' pte fd'
      → (k : ℕ) → k < page_size
      → (id ≢ id') ⊎ (i ≢ i')
      → content paged fd' pte k ≡ content s fd' pte k
  unfolding content
  content-after id' i' pte fd' u at k below other = elim (Bool-cases pte.present) [
    | inl is ↦ rw is
    | inr absent ↦ elim (Bool-cases pte.swap) [
      | inr fresh ↦ rw (absent, fresh)
      | inl swapped ↦
          let o =
            swapped-Owns {Among = Among} s id' i' pte fd' b u (other-PageAt id' i' pte fd' other at)
              absent swapped in
          rw (absent, swapped) (other-kept id' i' fd' pte.nr u other o k below)
    ]
  ]

  pub paged-view :
      (id' i' k : ℕ) → Among id' i' → k < page_size → view paged id' i' k ≡ view s id' i' k
  unfolding view content make_swap
  paged-view id' i' k u below = elim (same-slot id i id' i') [
    | inl (er, eo) ↦
        rw (← er, ← eo)
          (view-PageAt paged id i k (make_swap l.pte ix) fd self-PageAt
            ∙ ap some (l.written k below ∙ rw (l.present, l.frame))
            ∙ sym (view-PageAt s id i k l.pte fd l.page))
    | inr other ↦ elim (Option-cases (pte_at s.regions id' i')) [
      | inl nothing ↦
          rw (pte_at-set_pte_ne s.regions id i (make_swap l.pte ix) id' i' other, nothing)
      | inr (pte, e) ↦ elim (Option-cases (fd_of s.regions id')) [
        | inl nothing ↦ rw (
          pte_at-set_pte_ne s.regions id i (make_swap l.pte ix) id' i' other,
          e,
          fd_of-set_pte s.regions id i (make_swap l.pte ix) id',
          nothing,
        )
        | inr (fd', f) ↦
            let at : PageAt paged.regions id' i' pte fd' = record {
              entry = pte_at-set_pte_ne s.regions id i (make_swap l.pte ix) id' i' other ∙ e;
              backed_by = fd_of-set_pte s.regions id i (make_swap l.pte ix) id' ∙ f;
            } in
            view-PageAt paged id' i' k pte fd' at
            ∙ ap some (content-after id' i' pte fd' u at k below other)
            ∙ sym (view-PageAt s id' i' k pte fd' (record { entry = e; backed_by = f }))
      ]
    ]
  ]

  rest-le : (n : ℕ) → count n rest ≤ count n s.free_swap_entries
  rest-le n = elim l.choice [
    | inl (_, free) ↦ omega (arith, ap (count n) free)
    | inr (_, _, same) ↦ omega (arith, ap (count n) same)
  ]

  -- The place that the page got is no more free.
  own-taken : (n : ℕ) → fd ≡ s.swapfd → ix ≡ n → count n rest ≡ 0
  own-taken n anon eq = elim l.choice [
    | inl (_, free) ↦ ground (arith, b.free_once n, ap (count n) free, eq)
    | inr (pers, _, _) ↦ absurd (pers anon)
  ]

  pub paged-Backing : Backing Among paged
  unfolding make_swap
  paged-Backing = record {
    free_once = λ n. omega (arith, rest-le n, b.free_once n);
    apart = λ id1 i1 id2 i2 fd' n u1 u2 o1 o2. elim (owned_after id1 i1 fd' n o1) [
      | inl (er, eo, ef, ei) ↦ elim (owned_after id2 i2 fd' n o2) [
        | inl (er', eo', _, _) ↦ (sym er ∙ er', sym eo ∙ eo')
        | inr (other, o) ↦ absurd (mine-apart id2 i2 n u2 other (rw (← ef) at o) ei)
      ]
      | inr (other, o) ↦ elim (owned_after id2 i2 fd' n o2) [
        | inl (_, _, ef, ei) ↦ absurd (mine-apart id1 i1 n u1 other (rw (← ef) at o) ei)
        | inr (_, o') ↦ b.apart id1 i1 id2 i2 fd' n u1 u2 o o'
      ]
    ];
    taken = λ id' i' n u o. elim (owned_after id' i' s.swapfd n o) [
      | inl (_, _, anon, eq) ↦ own-taken n anon eq
      | inr (_, o') ↦ omega (arith, rest-le n, b.taken id' i' n u o')
    ];
    home = λ id' i' pte fd' u at pers absent swapped. elim (same-slot id i id' i') [
      | inl (er, eo) ↦
          let (is, same) = self_only pte fd' (rw (← er, ← eo) at at) in
          elim l.choice [
            | inl (anon, _) ↦ absurd (pers (sym same ∙ anon))
            | inr (_, at_i, _) ↦ sym (ap (λ (q : RegionPte). q.nr) is) ∙ at_i ∙ eo
          ]
      | inr other ↦
          b.home id' i' pte fd' u (other-PageAt id' i' pte fd' other at) pers absent swapped
    ];
    clean = λ id' i' pte fd' u at pers present flag k below. elim (same-slot id i id' i') [
      | inl (er, eo) ↦
          let (is, _) = self_only pte fd' (rw (← er, ← eo) at at) in
          absurd (ground (arith, present, ap (λ (q : RegionPte). q.present) is))
      | inr other ↦
          let at' = other-PageAt id' i' pte fd' other at in
          let o : Owns s.regions s.swapfd id' i' fd' i' = record {
            pte = pte;
            page = at';
            place = inr (pers, refl);
          } in
          other-kept id' i' fd' i' u other o k below
          ∙ b.clean id' i' pte fd' u at' pers present flag k below
    ];
  }
