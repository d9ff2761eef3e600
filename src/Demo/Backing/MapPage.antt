-- ===== src/Demo/Backing/MapPage.antt =====
-- Mapping a page to a frame that nobody uses keeps the bytes that every region shows.
use dasim.Base.{
  ℕ, ◌+◌, ◌*◌, ◌<◌, ◌≡◌, ◌≢◌, ◌∙◌, sym, ap, ◌⊎◌, inl, inr, Bool, true, false, some, some_inj, [],
  ◌∷◌, Bool-cases, Option-cases, arith, ne→==, ==_refl,
}
use dasim.Types.{page_size}
use dasim.Demo.Pte.{RegionPte, make_present}
use dasim.Demo.PageIo.{Bytes, blit}
use dasim.Demo.State.{DemoBufferManager, PageInfo, pte_at}
use dasim.Demo.State.Slots.{pte_at-set_pte_self, pte_at-set_pte_ne}
use dasim.Demo.State.Inv.{Inv, same-slot}
use dasim.Demo.Paging.Mapped.{mapped_page}
use dasim.Demo.Paging.Kept.{blit_at}
use dasim.Demo.Backing.{fd_of, content, view, PageAt, Owns, Backing, Everywhere, Elsewhere}
use dasim.Demo.Backing.Places.{fd_of-set_pte, view-PageAt}
use dasim.Demo.Backing.TakeFrame.{blit_page_ne}

blit_page_self :
    (dst src : Bytes) (p k : ℕ)
    → k < page_size
    → blit dst (p * page_size) src 0 page_size (p * page_size + k) ≡ src k
blit_page_self dst src p k below =
    blit_at dst src (p * page_size) 0 page_size k below ∙ ap src (omega arith)

module _ {nr : ℕ} (s : DemoBufferManager) (p : ℕ) (v : Inv nr (p ∷ []) s) (id poff : ℕ)
    (dirty : Bool) (source : Bytes) (pte : RegionPte) (fd : ℕ)
    (at : PageAt s.regions id poff pte fd) (absent : pte.present ≡ false)
    (b : Backing (Elsewhere s.swapfd id poff fd) s)
    (fresh : fd ≢ s.swapfd
      → dirty ≡ false
      → (k : ℕ) → k < page_size
      → s.files fd (poff * page_size + k) ≡ source k) where
  abbrev info : PageInfo
  info = record { region_id = id; off = poff; used_pages_it = p; dirty = dirty }

  abbrev pub filled : DemoBufferManager
  filled = mapped_page s id poff p info (blit s.shm (p * page_size) source 0 page_size) pte

  filled_self : PageAt filled.regions id poff (make_present pte p) fd
  filled_self = record {
    entry = pte_at-set_pte_self s.regions id poff (make_present pte p) pte at.entry;
    backed_by = fd_of-set_pte s.regions id poff (make_present pte p) id ∙ at.backed_by;
  }

  filled_other :
      (id' i' : ℕ) (pte' : RegionPte) (fd' : ℕ)
      → (id ≢ id') ⊎ (poff ≢ i')
      → PageAt filled.regions id' i' pte' fd'
      → PageAt s.regions id' i' pte' fd'
  filled_other id' i' pte' fd' other at' = record {
    entry = sym (pte_at-set_pte_ne s.regions id poff (make_present pte p) id' i' other) ∙ at'.entry;
    backed_by = sym (fd_of-set_pte s.regions id poff (make_present pte p) id') ∙ at'.backed_by;
  }

  filled_only :
      (pte' : RegionPte) (fd' : ℕ)
      → PageAt filled.regions id poff pte' fd'
      → (make_present pte p ≡ pte') × (fd ≡ fd')
  filled_only pte' fd' at' = (
    some_inj _ _ (sym filled_self.entry ∙ at'.entry),
    some_inj _ _ (sym filled_self.backed_by ∙ at'.backed_by),
  )

  -- The frames of other pages are other frames.
  filled_ne :
      (id' i' : ℕ) (pte' : RegionPte) (fd' : ℕ)
      → PageAt s.regions id' i' pte' fd'
      → pte'.present ≡ true
      → p ≢ pte'.nr
  filled_ne id' i' pte' fd' at' present eq =
      let hold = v.backed id' i' pte' at'.entry present in
      absurd (ground (arith, hold.in_use, v.frames p, eq))

  filled_shm :
      (id' i' : ℕ) (pte' : RegionPte) (fd' : ℕ)
      → PageAt s.regions id' i' pte' fd'
      → pte'.present ≡ true
      → (k : ℕ) → k < page_size
      → filled.shm (pte'.nr * page_size + k) ≡ s.shm (pte'.nr * page_size + k)
  filled_shm id' i' pte' fd' at' present k below =
      blit_page_ne s.shm source p 0 pte'.nr k (filled_ne id' i' pte' fd' at' present) below

  -- Owned pages of files are those from before, and none of the page itself in the swap file.
  filled_owned :
      (id' i' fd' n : ℕ)
      → Owns filled.regions s.swapfd id' i' fd' n
      → Elsewhere s.swapfd id poff fd id' i' × Owns s.regions s.swapfd id' i' fd' n
  unfolding make_present
  filled_owned id' i' fd' n o = elim (same-slot id poff id' i') [
    | inr other ↦ (
      inl other,
      record { pte = o.pte; page = filled_other id' i' o.pte fd' other o.page; place = o.place },
    )
    | inl (er, eo) ↦
        let (is, same) = filled_only o.pte fd' (rw (← er, ← eo) at o.page) in
        elim o.place [
          | inl (_, gone, _, _) ↦
              absurd (ground (arith, gone, ap (λ (q : RegionPte). q.present) is))
          | inr (pers, at_n) ↦ (
            inr (λ anon. pers (sym same ∙ anon)),
            rw (← er, ← eo, ← same)
                (record { pte = pte; page = at; place = inr (rw same pers, eo ∙ at_n) }),
          )
        ]
  ]

  filled-content :
      (id' i' : ℕ) (pte' : RegionPte) (fd' : ℕ)
      → PageAt s.regions id' i' pte' fd'
      → (k : ℕ) → k < page_size
      → content filled fd' pte' k ≡ content s fd' pte' k
  unfolding content
  filled-content id' i' pte' fd' at' k below = elim (Bool-cases pte'.present) [
    | inl present ↦ rw present (filled_shm id' i' pte' fd' at' present k below)
    | inr gone ↦ rw gone
  ]

  -- The page shows what it was filled with, and every other page what it showed.
  pub filled-view_self : (k : ℕ) → k < page_size → view filled id poff k ≡ some (source k)
  unfolding content make_present
  filled-view_self k below =
      view-PageAt filled id poff k (make_present pte p) fd filled_self
      ∙ ap some (blit_page_self s.shm source p k below)

  pub filled-view_other :
      (id' i' k : ℕ)
      → (id ≢ id') ⊎ (poff ≢ i')
      → k < page_size
      → view filled id' i' k ≡ view s id' i' k
  unfolding view
  filled-view_other id' i' k other below =
      rw
        (
          pte_at-set_pte_ne s.regions id poff (make_present pte p) id' i' other,
          fd_of-set_pte s.regions id poff (make_present pte p) id',
        )
        (elim (Option-cases (pte_at s.regions id' i')) [
          | inl nothing ↦ rw nothing
          | inr (pte', e) ↦ elim (Option-cases (fd_of s.regions id')) [
            | inl nothing ↦ rw (e, nothing)
            | inr (fd', f) ↦
                rw (e, f)
                  (ap some
                    (filled-content id' i' pte' fd' (record { entry = e; backed_by = f }) k below))
          ]
        ])

  filled-clean :
      (id' i' : ℕ) (pte' : RegionPte) (fd' : ℕ)
      → PageAt filled.regions id' i' pte' fd'
      → fd' ≢ s.swapfd
      → pte'.present ≡ true
      → (filled.page_infos pte'.nr).dirty ≡ false
      → (k : ℕ) → k < page_size
      → s.files fd' (i' * page_size + k) ≡ filled.shm (pte'.nr * page_size + k)
  unfolding make_present
  filled-clean id' i' pte' fd' at' pers present flag k below = elim (same-slot id poff id' i') [
    | inl (er, eo) ↦
        let (is, same) = filled_only pte' fd' (rw (← er, ← eo) at at') in
        let clear : dirty ≡ false = rw (← is, ==_refl p) at flag in
        rw (← same, ← eo, ← is)
          (fresh (λ anon. pers (sym same ∙ anon)) clear k below
            ∙ sym (blit_page_self s.shm source p k below))
    | inr other ↦
        let old = filled_other id' i' pte' fd' other at' in
        let ne = filled_ne id' i' pte' fd' old present in
        b.clean id' i' pte' fd' (inl other) old pers present (rw (ne→== p pte'.nr ne) at flag) k
          below
        ∙ sym (filled_shm id' i' pte' fd' old present k below)
  ]

  pub filled-Backing : Backing Everywhere filled
  unfolding make_present
  filled-Backing = record {
    free_once = b.free_once;
    apart = λ id1 i1 id2 i2 fd' n u1 u2 o1 o2.
        let (e1, old1) = filled_owned id1 i1 fd' n o1 in
        let (e2, old2) = filled_owned id2 i2 fd' n o2 in
        b.apart id1 i1 id2 i2 fd' n e1 e2 old1 old2;
    taken =
        λ id' i' n u o. let (e, old) = filled_owned id' i' s.swapfd n o in b.taken id' i' n e old;
    home = λ id' i' pte' fd' u at' pers gone swapped. elim (same-slot id poff id' i') [
      | inl (er, eo) ↦
          let (is, _) = filled_only pte' fd' (rw (← er, ← eo) at at') in
          absurd (ground (arith, gone, ap (λ (q : RegionPte). q.present) is))
      | inr other ↦
          b.home id' i' pte' fd' (inl other) (filled_other id' i' pte' fd' other at') pers gone
            swapped
    ];
    clean = λ id' i' pte' fd' u at' pers present flag k below.
        filled-clean id' i' pte' fd' at' pers present flag k below;
  }
