-- ===== src/Demo/Persist/Written/Visits.antt =====
-- What one round of the loop of `persist` does.
use dasim.Base.{
  ℕ, ◌+◌, ◌*◌, ◌<◌, ◌≡◌, ◌≢◌, ◌∙◌, refl, sym, ap, ==_refl, ne→==, true, false, not, some, some_inj,
  >>=-eq-some, arith, inl, inr, ◌⊎◌, Bool-cases,
}
use dasim.Types.{page_size}
use dasim.Demo.Pte.{RegionPte, Region, get_pte, get_page_nr}
use dasim.Demo.PageIo.{Os, Bytes, blit}
use dasim.Demo.PageIo.Transfers.{WritesMove, write_loop_page}
use dasim.Demo.State.{DemoBufferManager, update}
use dasim.Demo.Paging.{swap_out_page_data}
use dasim.Demo.Paging.Kept.{blit_at}
use dasim.Demo.Persist.{persist_page}

-- The state after page `i` is written.
abbrev pub written : Region → ℕ → RegionPte → DemoBufferManager → DemoBufferManager
written region i pte s = record s {
  files =
      update s.files region.swapfd
        (blit (s.files region.swapfd) (i * page_size) s.shm (pte.nr * page_size) page_size);
  page_infos = update s.page_infos pte.nr (record (s.page_infos pte.nr) { dirty = false });
}

-- A page is left alone, or written.
pub record Visits (region : Region) (i : ℕ) (s s' : DemoBufferManager) : Type 0 where
  pub pte : RegionPte
  pub entry : get_pte region i ≡ some pte
  pub outcome :
      (((pte.present ≡ false) ⊎ ((s.page_infos pte.nr).dirty ≡ false)) × (s' ≡ s))
      ⊎ ((pte.present ≡ true) × (s' ≡ written region i pte s))

pub persist_page-Visits :
    (os : Os) (region : Region) (i : ℕ) (s s' : DemoBufferManager)
    → WritesMove os
    → persist_page os region i s ≡ some s'
    → Visits region i s s'
unfolding persist_page swap_out_page_data get_page_nr
persist_page-Visits os region i s s' moves e =
    let (pte, entry, e1) = >>=-eq-some (get_pte region i) _ e in
    elim (Bool-cases pte.present) [
      | inl present ↦
          let e2 = rw (present) at e1 in
          elim (Bool-cases (not (s.page_infos pte.nr).dirty)) [
            | inl clean ↦ record {
              pte = pte;
              entry = entry;
              outcome = inl (inr (ground (arith, clean)), sym (some_inj _ _ (rw (clean) at e2)));
            }
            | inr dirty ↦
                let e3 =
                  rw
                    (
                      dirty,
                      write_loop_page os s.shm (s.files region.swapfd) (pte.nr * page_size)
                          region.swapfd (i * page_size) moves,
                    )
                    at e2 in
                record { pte = pte; entry = entry; outcome = inr (present, sym (some_inj _ _ e3)) }
          ]
      | inr absent ↦ record {
        pte = pte;
        entry = entry;
        outcome = inl (inl absent, sym (some_inj _ _ (rw (absent) at e1)));
      }
    ]

-- The bytes of page `j` are in the file, and its frame is clean.
pub record Persisted (region : Region) (j : ℕ) (pte : RegionPte) (shm : Bytes)
    (s : DemoBufferManager) : Type 0 where
  pub bytes :
      (k : ℕ)
      → k < page_size
      → s.files region.swapfd (j * page_size + k) ≡ shm (pte.nr * page_size + k)
  pub clean : (s.page_infos pte.nr).dirty ≡ false

-- What a later round does not undo.
pub visit-Persisted :
    (region : Region) (i j : ℕ) (pte : RegionPte) (shm : Bytes) (s s' : DemoBufferManager)
    → i ≢ j
    → Visits region i s s'
    → Persisted region j pte shm s
    → Persisted region j pte shm s'
visit-Persisted region i j pte shm s s' ne visit done = elim visit.outcome [
  | inl (_, same) ↦ rw same done
  | inr (_, now) ↦ rw now (record {
    bytes = λ k below. rw (==_refl region.swapfd) (ground (arith, done.bytes k below, ne, below));
    clean = ground (arith, done.clean);
  })
]

-- A present page that is dirty before its round is kept by it.
pub visit-writes :
    (region : Region) (j : ℕ) (pte : RegionPte) (s s' : DemoBufferManager)
    → get_pte region j ≡ some pte
    → pte.present ≡ true
    → (s.page_infos pte.nr).dirty ≡ true
    → Visits region j s s'
    → Persisted region j pte s.shm s'
visit-writes region j pte s s' entry present dirty visit =
    let is : visit.pte ≡ pte = some_inj _ _ (sym visit.entry ∙ entry) in
    elim visit.outcome [
      | inl (inl absent, _) ↦
          absurd (ground (arith, absent, present, ap (λ (x : RegionPte). x.present) is))
      | inl (inr clean, _) ↦
          absurd
            (ground (arith, clean, dirty, ap (λ (x : RegionPte). (s.page_infos x.nr).dirty) is))
      | inr (_, now) ↦
          rw (now, is)
            (record {
              bytes = λ k below. rw (==_refl region.swapfd) (
                  blit_at (s.files region.swapfd) s.shm (j * page_size) (pte.nr * page_size)
                    page_size k below);
              clean = rw (==_refl pte.nr) refl;
            })
    ]

pub visit-apart :
    (region : Region) (i j : ℕ) (pte : RegionPte) (s s' : DemoBufferManager)
    → (visit : Visits region i s s') → (visit.pte.present ≡ true → visit.pte.nr ≢ pte.nr)
    → (s'.shm ≡ s.shm) × ((s'.page_infos pte.nr).dirty ≡ (s.page_infos pte.nr).dirty)
visit-apart region i j pte s s' visit apart = elim visit.outcome [
  | inl (_, same) ↦ rw same (refl, refl)
  | inr (present, now) ↦ rw (now, ne→== visit.pte.nr pte.nr (apart present)) (refl, refl)
]
