-- ===== src/Demo/Backing/WrittenBack.antt =====
-- Writing pages of a persistent region back to its file keeps the bytes that every region shows.
use dasim.Base.{
  ℕ, zero, suc, ◌+◌, ◌-◌, ◌*◌, ◌/◌, ◌<◌, ◌≡◌, ◌≢◌, ◌∙◌, refl, sym, ap, ◌⊎◌, inl, inr, true, false,
  not, some, some_inj, [], if_true, if_false, >>=-eq-some, Bool-cases, Option-cases, lookup, arith,
  ne→==,
}
use dasim.Types.{page_size}
use dasim.Demo.Pte.{RegionPte, Region, get_pte, get_page_nr}
use dasim.Demo.PageIo.{Os, Bytes}
use dasim.Demo.PageIo.Transfers.{WritesMove}
use dasim.Demo.State.{DemoBufferManager, pte_at}
use dasim.Demo.State.Inv.{Inv, same-slot, with_dirty, with_dirty-Inv}
use dasim.Demo.Paging.{swap_out_page_data}
use dasim.Demo.Paging.Frames.{swap_out_page_data-eq}
use dasim.Demo.Paging.Kept.{swap_out_page_data-writes}
use dasim.Demo.Persist.{persist_page, persist_pages, persist}
use dasim.Demo.Backing.{fd_of, content, view, PageAt, Owns, Backing, Everywhere}
use dasim.Demo.Backing.Places.{swapped-Owns, frames_ne}
use dasim.Demo.Backing.TakeFrame.{swap_out_page_data-keeps}

-- The state after a page is written back.
abbrev pub written_back : DemoBufferManager → ℕ → (ℕ → Bytes) → DemoBufferManager
written_back s p files = with_dirty (record s { files = files }) p false

module _ {nr : ℕ} (s : DemoBufferManager) (v : Inv nr [] s) (b : Backing Everywhere s) (id i : ℕ)
    (pte : RegionPte) (fd : ℕ) (at : PageAt s.regions id i pte fd) (pers : fd ≢ s.swapfd)
    (present : pte.present ≡ true) (files : ℕ → Bytes)
    (written : (k : ℕ)
      → k < page_size
      → files fd (i * page_size + k) ≡ s.shm (pte.nr * page_size + k))
    (kept : (fd' n k : ℕ)
      → (fd ≢ fd') ⊎ (i ≢ n)
      → k < page_size
      → files fd' (n * page_size + k) ≡ s.files fd' (n * page_size + k)) where
  other_place :
      (id' i' fd' n : ℕ)
      → (id ≢ id') ⊎ (i ≢ i')
      → Owns s.regions s.swapfd id' i' fd' n
      → (fd ≢ fd') ⊎ (i ≢ n)
  other_place id' i' fd' n other o = elim (same-slot fd i fd' n) [
    | inr apart ↦ apart
    | inl (ef, ei) ↦
        let mine : Owns s.regions s.swapfd id i fd i = record {
          pte = pte;
          page = at;
          place = inr (pers, refl);
        } in
        let same = b.apart id i id' i' fd i tt tt mine (rw (← ef, ← ei) at o) in
        elim other [ inl k ↦ absurd (k same.0) | inr k ↦ absurd (k same.1) ]
  ]

  other_content :
      (id' i' : ℕ) (pte' : RegionPte) (fd' : ℕ)
      → PageAt s.regions id' i' pte' fd'
      → (k : ℕ) → k < page_size
      → content (written_back s pte.nr files) fd' pte' k ≡ content s fd' pte' k
  unfolding content
  other_content id' i' pte' fd' at' k below = elim (Bool-cases pte'.present) [
    | inl is ↦ rw is
    | inr out ↦ elim (Bool-cases pte'.swap) [
      | inr fresh ↦ rw (out, fresh)
      | inl swapped ↦ elim (same-slot id i id' i') [
        | inl (er, eo) ↦
            let is = some_inj pte pte' (sym at.entry ∙ rw (← er, ← eo) at at'.entry) in
            absurd (ground (arith, present, out, ap (λ (q : RegionPte). q.present) is))
        | inr other ↦
            let o = swapped-Owns {Among = Everywhere} s id' i' pte' fd' b tt at' out swapped in
            rw (out, swapped) (kept fd' pte'.nr k (other_place id' i' fd' pte'.nr other o) below)
      ]
    ]
  ]

  pub written_back-view :
      (id' i' k : ℕ) → k < page_size → view (written_back s pte.nr files) id' i' k ≡ view s id' i' k
  unfolding view
  written_back-view id' i' k below = elim (Option-cases (pte_at s.regions id' i')) [
    | inl nothing ↦ rw nothing
    | inr (pte', e) ↦ elim (Option-cases (fd_of s.regions id')) [
      | inl nothing ↦ rw (e, nothing)
      | inr (fd', f) ↦
          rw (e, f)
            (ap some (other_content id' i' pte' fd' (record { entry = e; backed_by = f }) k below))
    ]
  ]

  pub written_back-Backing : Backing Everywhere (written_back s pte.nr files)
  written_back-Backing = record {
    free_once = b.free_once;
    apart = b.apart;
    taken = b.taken;
    home = b.home;
    clean = λ id' i' pte' fd' u at' pers' present' flag k below. elim (same-slot id i id' i') [
      | inl (er, eo) ↦
          let is = some_inj pte pte' (sym at.entry ∙ rw (← er, ← eo) at at'.entry) in
          let same = some_inj fd fd' (sym at.backed_by ∙ rw (← er) at at'.backed_by) in
          rw (← same, ← eo, ← is) (written k below)
      | inr other ↦
          let ne = frames_ne s v id i pte id' i' pte' at.entry present at'.entry present' other in
          let o : Owns s.regions s.swapfd id' i' fd' i' = record {
            pte = pte';
            page = at';
            place = inr (pers', refl);
          } in
          kept fd' i' k (other_place id' i' fd' i' other o) below
          ∙ b.clean id' i' pte' fd' u at' pers' present' (rw (ne→== pte.nr pte'.nr ne) at flag) k
              below
    ];
  }

-- What a part of `persist` keeps.
pub record Kept (nr : ℕ) (s s' : DemoBufferManager) : Type 0 where
  pub inv : Inv nr [] s'
  pub backing : Backing Everywhere s'
  pub shows : (id i k : ℕ) → k < page_size → view s' id i k ≡ view s id i k
  pub regions : s'.regions ≡ s.regions
  pub swapfd : s'.swapfd ≡ s.swapfd

module _ {nr : ℕ} (os : Os) (moves : WritesMove os) (id : ℕ) (region : Region) where
  unchanged : (s : DemoBufferManager) → Inv nr [] s → Backing Everywhere s → Kept nr s s
  unchanged s v b = record {
    inv = v;
    backing = b;
    shows = λ id' i k below. refl;
    regions = refl;
    swapfd = refl;
  }

  persist_page-Kept :
      (s : DemoBufferManager) (i : ℕ) (s' : DemoBufferManager)
      → Inv nr [] s
      → Backing Everywhere s
      → lookup id s.regions ≡ some region
      → region.swapfd ≢ s.swapfd
      → persist_page os region i s ≡ some s'
      → Kept nr s s'
  unfolding persist_page get_page_nr pte_at fd_of
  persist_page-Kept s i s' v b f pers e =
      let (pte, g, e1) = >>=-eq-some (get_pte region i) _ e in
      elim (Bool-cases pte.present) [
        | inr absent ↦
            rw (← some_inj _ _ (sym (if_true _ _ _ (ap not absent)) ∙ e1)) (unchanged s v b)
        | inl present ↦
            let e2 = rw (present) at e1 in
            elim (Bool-cases (s.page_infos pte.nr).dirty) [
              | inr clean ↦
                  rw (← some_inj _ _ (sym (if_true _ _ _ (ap not clean)) ∙ e2)) (unchanged s v b)
              | inl dirty ↦
                  let fd = region.swapfd in
                  let (t, w, k) =
                    >>=-eq-some (swap_out_page_data os s pte.nr fd i) _
                      (sym (if_false _ _ _ (ap not dirty)) ∙ e2) in
                  let same = swap_out_page_data-eq os s pte.nr fd i t w in
                  let at : PageAt s.regions id i pte fd = record {
                    entry = rw f g;
                    backed_by = rw f;
                  } in
                  let written = swap_out_page_data-writes os s pte.nr fd i t moves w in
                  let kept = swap_out_page_data-keeps os s pte.nr fd i t moves w in
                  rw (← some_inj _ _ k, same)
                    (record {
                      inv = with_dirty-Inv (record s { files = t.files }) pte.nr false v;
                      backing =
                          written_back-Backing s v b id i pte fd at pers present t.files written
                            kept;
                      shows =
                          written_back-view s v b id i pte fd at pers present t.files written kept;
                      regions = refl;
                      swapfd = refl;
                    })
            ]
      ]

  persist_pages-Kept :
      (rounds i : ℕ) (s s' : DemoBufferManager)
      → Inv nr [] s
      → Backing Everywhere s
      → lookup id s.regions ≡ some region
      → region.swapfd ≢ s.swapfd
      → persist_pages os region rounds i s ≡ some s'
      → Kept nr s s'
  unfolding persist_pages
  persist_pages-Kept zero i s s' v b f pers e = rw (← some_inj _ _ e) (unchanged s v b)
  persist_pages-Kept (suc rounds) i s s' v b f pers e =
      elim (Option-cases (persist_page os region i s)) [
        | inl nothing ↦ let k = rw (nothing, persist_pages) at e in absurd (ground (arith, k))
        | inr (t, w) ↦
            let first = persist_page-Kept s i t v b f pers w in
            let rest =
              persist_pages-Kept rounds (i + 1) t s' first.inv first.backing (rw first.regions f)
                (rw first.swapfd pers) (rw (w, persist_pages) at e) in
            record {
              inv = rest.inv;
              backing = rest.backing;
              shows = λ id' i' k below. rest.shows id' i' k below ∙ first.shows id' i' k below;
              regions = rest.regions ∙ first.regions;
              swapfd = rest.swapfd ∙ first.swapfd;
            }
      ]

-- `persist` of a persistent region.
pub persist-Kept :
    {nr : ℕ} (os : Os) (s : DemoBufferManager) (id off size fd : ℕ) (s' : DemoBufferManager)
    → WritesMove os
    → Inv nr [] s
    → Backing Everywhere s
    → fd_of s.regions id ≡ some fd
    → fd ≢ s.swapfd
    → persist os s id off size ≡ some s'
    → Kept nr s s'
unfolding persist fd_of
persist-Kept os s id off size fd s' moves v b backed pers e =
    let (region, f, e1) = >>=-eq-some (lookup id s.regions) _ e in
    let is : region.swapfd ≡ fd = some_inj _ _ (rw (f) at backed) in
    persist_pages-Kept os moves id region (size / page_size - off / page_size) (off / page_size) s
      s' v b f (rw is pers) e1
