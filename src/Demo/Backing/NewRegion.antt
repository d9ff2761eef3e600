-- ===== src/Demo/Backing/NewRegion.antt =====
-- How `allocate` changes the state when it succeeds.
use dasim.Base.{
  emplace, ℕ, ◌*◌, ◌/◌, ◌%◌, ◌<◌, ◌≡◌, ◌≢◌, ◌∙◌, refl, sym, ap, ◌⊎◌, inl, inr, Bool, true, false,
  not, ◌||◌, some, some_inj, none, if_true, if_false, >>=-eq-some, Bool-cases, lookup, arith,
  contains, contains_fresh, emplace_fresh, lookup-insert_same, lookup-insert_other, ==_refl, ne→==,
  ltb, sub64, ◌==◌,
}
use dasim.Types.{page_size, Properties}
use dasim.Demo.Pte.{Region, new_region}
use dasim.Demo.PageIo.{Bytes, Os, opened, OpenResult-cases, init_pages}
use dasim.Demo.PageIo.Transfers.{WritesMove, init_pages_lem}
use dasim.Demo.State.{update, DemoBufferManager}
use dasim.Demo.Regions.{add_region, add_new_region, allocate_file, allocate, is_persistent}
use dasim.Demo.Backing.{fd_of}
use dasim.Demo.Backing.Grown.{Grows}

-- If the file for region `id` is opened now, its descriptor is not in use.
abbrev pub OpensFresh : Os → DemoBufferManager → ℕ → Type 0
OpensFresh os s id =
    (fd : ℕ)
    → os.create_file id ≡ opened fd
    → (fd ≢ s.swapfd) × ((j : ℕ) → fd_of s.regions j ≢ some fd)

-- A new region, with a file full of 'A' if it is persistent.
pub record New (s : DemoBufferManager) (id size : ℕ) (persistent : Bool) (s' : DemoBufferManager)
    : Type 0 where
  pub addr : ℕ
  pub fd : ℕ
  pub grows : Grows s id addr size fd persistent s'
  pub filled :
      (persistent ≡ false) ⊎ ((k : ℕ) → k < (size / page_size) * page_size → s'.files fd k ≡ b'A')

refused :
    (r : ℕ × ℕ × DemoBufferManager) {n out : ℕ} {t : DemoBufferManager}
    → some (n, out, t) ≡ some r
    → n ≢ 0
    → r.0 ≡ 0
    → ⊥
refused r e ne code = ne (ap (λ (u : ℕ × ℕ × DemoBufferManager). u.0) (some_inj _ _ e) ∙ code)

-- The state with the new region, where only the new file may have changed.
abbrev with_region : DemoBufferManager → ℕ → ℕ → Region → (ℕ → Bytes) → DemoBufferManager
with_region s a id region files = record s {
  nr_available_pages = a;
  regions = emplace id region s.regions;
  files = files;
}

with_region-Grows :
    (s : DemoBufferManager) (a id addr size fd : ℕ) (persistent : Bool) (files : ℕ → Bytes)
    → lookup id s.regions ≡ none
    → ((persistent ≡ false) × (fd ≡ s.swapfd))
      ⊎ ((persistent ≡ true) × (fd ≢ s.swapfd) × ((j : ℕ) → fd_of s.regions j ≢ some fd))
    → ((fd' : ℕ) → (persistent ≡ false) ⊎ (fd ≢ fd') → files fd' ≡ s.files fd')
    → Grows s id addr size fd persistent
        (with_region s a id (new_region addr size fd persistent false) files)
with_region-Grows s a id addr size fd persistent files unused own same =
    let region = new_region addr size fd persistent false in
    let put = emplace_fresh id region s.regions unused in
    record {
      region = rw put (lookup-insert_same id region s.regions);
      others = λ j ne. rw put (lookup-insert_other id j region s.regions ne);
      swapfd = refl;
      infos = refl;
      free_swap = refl;
      shm = refl;
      files = same;
      own_file = own;
    }

-- A file of which `contents` is new.
update_other :
    (s : DemoBufferManager) (fd : ℕ) (contents : Bytes) (persistent : Bool)
    → persistent ≡ true
    → (fd' : ℕ) → (persistent ≡ false) ⊎ (fd ≢ fd')
    → update s.files fd contents fd' ≡ s.files fd'
update_other s fd contents persistent file fd' (inl anon) = absurd (ground (arith, file, anon))
update_other s fd contents persistent file fd' (inr ne) = rw (ne→== fd fd' ne)

module _ (os : Os) (moves : WritesMove os) (s : DemoBufferManager) (id size : ℕ)
    (unused : lookup id s.regions ≡ none) where
  add_new_region-New :
      (a fd : ℕ) (persistent : Bool) (out : ℕ) (r : ℕ × ℕ × DemoBufferManager)
      → ((persistent ≡ false) × (fd ≡ s.swapfd))
        ⊎ ((persistent ≡ true) × (fd ≢ s.swapfd) × ((j : ℕ) → fd_of s.regions j ≢ some fd))
      → add_new_region os (record s { nr_available_pages = a }) id size fd persistent out ≡ some r
      → r.0 ≡ 0
      → New s id size persistent r.2
  unfolding add_new_region add_region
  add_new_region-New a fd persistent out r own e zero_code =
      let addr = os.reserve size in
      let grows = with_region-Grows s a id addr size fd persistent in
      elim (Bool-cases (addr == 0)) [
        | inl failed ↦ absurd (refused r (rw (failed) at e) (ground arith) zero_code)
        | inr mapped ↦
            let e1 = rw (mapped) at e in
            elim (Bool-cases persistent) [
              | inr anon ↦
                  let k = sym (if_false _ _ _ anon) ∙ e1 in
                  rw (← some_inj _ _ k) (record {
                    addr = addr;
                    fd = fd;
                    grows = grows s.files unused own (λ fd' _. refl);
                    filled = inl anon;
                  })
              | inl file ↦
                  let (contents, done, k) =
                    >>=-eq-some (init_pages os (size / page_size) 0 fd (s.files fd)) _
                      (sym (if_true _ _ _ file) ∙ e1) in
                  let (all, made, inside, _, _) =
                    init_pages_lem os fd moves (size / page_size) 0 (s.files fd) in
                  let is = some_inj _ _ (sym made ∙ done) in
                  rw (← some_inj _ _ k) (record {
                    addr = addr;
                    fd = fd;
                    grows =
                        grows (update s.files fd contents) unused own
                          (update_other s fd contents persistent file);
                    filled = inr (λ k' below.
                        rw (==_refl fd, ← is) (inside k' (omega arith) (omega (arith, below))));
                  })
            ]
      ]

  allocate_file-New :
      (out : ℕ) (r : ℕ × ℕ × DemoBufferManager)
      → OpensFresh os s id
      → allocate_file os s id size out ≡ some r
      → r.0 ≡ 0
      → New s id size true r.2
  unfolding allocate_file
  allocate_file-New out r opens e zero_code = elim (OpenResult-cases (os.create_file id)) [
    | inl (errsv, failed) ↦
        absurd (refused r (rw (failed, allocate_file) at e) (ground arith) zero_code)
    | inr (fd, ok) ↦
        let e1 = rw (ok, allocate_file) at e in
        elim (Bool-cases (os.truncate_fails fd size)) [
          | inl failed ↦ absurd (refused r (rw (failed) at e1) (ground arith) zero_code)
          | inr truncated ↦
              let (ne, fresh) = opens fd ok in
              add_new_region-New s.nr_available_pages fd true out r (inr (refl, ne, fresh))
                (sym (if_false _ _ _ truncated) ∙ e1) zero_code
        ]
  ]

pub allocate-New :
    (os : Os) (s : DemoBufferManager) (id size : ℕ) (properties : Properties) (out : ℕ)
    (r : ℕ × ℕ × DemoBufferManager)
    → WritesMove os
    → OpensFresh os s id
    → allocate os s id size properties out ≡ some r
    → r.0 ≡ 0
    → New s id size (is_persistent properties) r.2
unfolding allocate
allocate-New os s id size properties out r moves opens e zero_code =
    elim (Bool-cases (contains id s.regions)) [
      | inl is ↦ absurd (refused r (rw (is) at e) (ground arith) zero_code)
      | inr isnt ↦
          let e1 = sym (if_false _ _ _ isnt) ∙ e in
          let unused = contains_fresh id s.regions isnt in
          elim (Bool-cases (size == 0 || not (size % page_size == 0))) [
            | inl bad ↦ absurd (refused r (sym (if_true _ _ _ bad) ∙ e1) (ground arith) zero_code)
            | inr good ↦
                let e2 = sym (if_false _ _ _ good) ∙ e1 in
                elim (Bool-cases (is_persistent properties)) [
                  | inl file ↦ rw file (
                      allocate_file-New os moves s id size unused out r opens
                        (sym (if_true _ _ _ file) ∙ e2) zero_code)
                  | inr anon ↦
                      let e3 = sym (if_false _ _ _ anon) ∙ e2 in
                      elim (Bool-cases (ltb s.nr_available_pages (size / page_size))) [
                        | inl short ↦ absurd (refused r (rw (short) at e3) (ground arith) zero_code)
                        | inr enough ↦ rw anon (
                            add_new_region-New os moves s id size unused
                              (sub64 s.nr_available_pages (size / page_size)) s.swapfd false out r
                              (inl (refl, refl)) (sym (if_false _ _ _ enough) ∙ e3) zero_code)
                      ]
                ]
          ]
    ]
