-- ===== src/Demo/Regions/Allocated.antt =====
-- What a call of `allocate` leaves: a new region and less available memory, or an error.
use dasim.Base.{
  ℕ, ◌+◌, ◌/◌, ◌%◌, ◌≤◌, ◌<◌, ◌≡◌, ◌≢◌, ◌∙◌, refl, sym, Bool, true, false, not, ◌||◌, none, some,
  some_inj, if_true, if_false, lookup, insert, emplace, emplace_fresh, contains, contains_fresh,
  lookup-insert_same, lookup-insert_other, ltb, if◌then◌else◌, ◌==◌, sub64, u64, >>=-eq-some, arith,
  inl, inr, ◌⊎◌, Bool-cases, ==→eq, ==→ne,
}
use dasim.Types.{page_size, Properties, enomem}
use dasim.Demo.Pte.{new_region}
use dasim.Demo.PageIo.{Os, OpenResult-cases, init_pages}
use dasim.Demo.State.{update, DemoBufferManager}
use dasim.Demo.Regions.{add_region, add_new_region, allocate_file, allocate, is_persistent}

-- `s'` is `s` with one region more, all of whose entries are those of a new region.
pub record Added (s : DemoBufferManager) (id addr size swapfd : ℕ) (persistent : Bool)
    (s' : DemoBufferManager) : Type 0 where
  pub region : lookup id s'.regions ≡ some (new_region addr size swapfd persistent false)
  pub others : (j : ℕ) → id ≢ j → lookup j s'.regions ≡ lookup j s.regions
  pub mapped : addr ≢ 0

emplace-Added :
    (s : DemoBufferManager) (id addr size swapfd : ℕ) (persistent : Bool) (s' : DemoBufferManager)
    → (addr == 0) ≡ false
    → lookup id s.regions ≡ none
    → s'.regions ≡ emplace id (new_region addr size swapfd persistent false) s.regions
    → Added s id addr size swapfd persistent s'
emplace-Added s id addr size swapfd persistent s' mapped fresh e =
    let region = new_region addr size swapfd persistent false in
    let is : s'.regions ≡ insert id region s.regions =
      e ∙ emplace_fresh id region s.regions fresh in
    record {
      region = rw is (lookup-insert_same id region s.regions);
      others = λ j ne. rw is (lookup-insert_other id j region s.regions ne);
      mapped = ==→ne addr 0 mapped;
    }

module _ (os : Os) where
  add_new_region-Added :
      (s : DemoBufferManager) (id size swapfd : ℕ) (persistent : Bool) (out : ℕ)
      (r : ℕ × ℕ × DemoBufferManager)
      → lookup id s.regions ≡ none
      → add_new_region os s id size swapfd persistent out ≡ some r
      → r.2.nr_available_pages ≡ s.nr_available_pages
        × (((r.0 ≡ enomem) × (os.reserve size ≡ 0) × (r.2.regions ≡ s.regions))
            ⊎ ((r.0 ≡ 0) × Added s id r.1 size swapfd persistent r.2))
  unfolding add_new_region add_region
  add_new_region-Added s id size swapfd persistent out r fresh e =
      elim (Bool-cases (os.reserve size == 0)) [
        | inl failed ↦
            let k = rw (failed) at e in
            rw (← some_inj _ _ k) (refl, inl (refl, ==→eq (os.reserve size) 0 failed, refl))
        | inr mapped ↦
            let e1 = rw (mapped) at e in
            let with_region : DemoBufferManager = record s {
              regions =
                  emplace id (new_region (os.reserve size) size swapfd persistent false) s.regions;
            } in
            elim (Bool-cases persistent) [
              | inl file ↦
                  let (contents, _, k) =
                    >>=-eq-some (init_pages os (size / page_size) 0 swapfd (s.files swapfd)) _
                      (sym (if_true _ _ _ file) ∙ e1) in
                  rw (← some_inj _ _ k) (
                    refl,
                    inr (
                      refl,
                      emplace-Added s id (os.reserve size) size swapfd persistent
                          (record with_region { files = update s.files swapfd contents }) mapped
                          fresh refl,
                    ),
                  )
              | inr anon ↦
                  let k = sym (if_false _ _ _ anon) ∙ e1 in
                  rw (← some_inj _ _ k) (
                    refl,
                    inr (
                      refl,
                      emplace-Added s id (os.reserve size) size swapfd persistent with_region mapped
                          fresh refl,
                    ),
                  )
            ]
      ]

  abbrev Outcome : DemoBufferManager → ℕ → ℕ → Bool → ℕ × ℕ × DemoBufferManager → Type 0
  Outcome s id size persistent r =
      ((r.0 ≢ 0) × (r.2.regions ≡ s.regions))
      ⊎ ((r.0 ≡ 0)
          × (1 ≤ size)
          × (size % page_size ≡ 0)
          × (lookup id s.regions ≡ none)
          × ((swapfd : ℕ) × Added s id r.1 size swapfd persistent r.2)
          × (r.2.nr_available_pages + (if persistent then 0 else size / page_size)
              ≡ s.nr_available_pages))

  allocate_file-Added :
      (s : DemoBufferManager) (id size out : ℕ) (r : ℕ × ℕ × DemoBufferManager)
      → (1 ≤ size) × (size % page_size ≡ 0)
      → lookup id s.regions ≡ none
      → allocate_file os s id size out ≡ some r
      → Outcome s id size true r
  unfolding allocate_file
  allocate_file-Added s id size out r (positive, aligned) fresh e =
      elim (OpenResult-cases (os.create_file id)) [
        | inl (errsv, failed) ↦
            let k = rw (failed, allocate_file) at e in
            rw (← some_inj _ _ k) (inl (ground arith, refl))
        | inr (fd, ok) ↦
            let e1 = rw (ok, allocate_file) at e in
            elim (Bool-cases (os.truncate_fails fd size)) [
              | inl failed ↦
                  let k = rw (failed) at e1 in rw (← some_inj _ _ k) (inl (ground arith, refl))
              | inr truncated ↦
                  let (left, outcome) =
                    add_new_region-Added s id size fd true out r fresh
                      (sym (if_false _ _ _ truncated) ∙ e1) in
                  elim outcome [
                    | inl (code, _, same) ↦ inl (ground (arith, code), same)
                    | inr (code, added) ↦
                        inr (code, positive, aligned, fresh, (fd, added), omega (arith, left))
                  ]
            ]
      ]

  allocate_anon-Added :
      (s : DemoBufferManager) (id size out : ℕ) (r : ℕ × ℕ × DemoBufferManager)
      → s.nr_available_pages < u64
      → (1 ≤ size) × (size % page_size ≡ 0)
      → lookup id s.regions ≡ none
      → (if ltb s.nr_available_pages (size / page_size)
          then some (enomem, out, s)
          else add_new_region os
              (record s { nr_available_pages = sub64 s.nr_available_pages (size / page_size) })
              id
              size
              s.swapfd
              false
              out)
        ≡ some r
      → Outcome s id size false r
  allocate_anon-Added s id size out r small (positive, aligned) fresh e =
      elim (Bool-cases (ltb s.nr_available_pages (size / page_size))) [
        | inl short ↦ let k = rw (short) at e in rw (← some_inj _ _ k) (inl (ground arith, refl))
        | inr enough ↦
            let taken : DemoBufferManager = record s {
              nr_available_pages = sub64 s.nr_available_pages (size / page_size);
            } in
            let (left, outcome) =
              add_new_region-Added taken id size s.swapfd false out r fresh
                (sym (if_false _ _ _ enough) ∙ e) in
            elim outcome [
              | inl (code, _, same) ↦ inl (ground (arith, code), same)
              | inr (code, added) ↦
                  let added' : Added s id r.1 size s.swapfd false r.2 = record {
                    region = added.region;
                    others = added.others;
                    mapped = added.mapped;
                  } in
                  inr (
                    code,
                    positive,
                    aligned,
                    fresh,
                    (s.swapfd, added'),
                    ground (arith, left, enough, small),
                  )
            ]
      ]

  -- `allocate` either fails with an error and adds no region, or returns 0, and then the size was
  -- a positive multiple of the page size, the id was new, the region is there with a non-zero
  -- address and the entries of a new region, the other regions are as before, and a region that is
  -- not persistent has taken its pages from those available, which were enough.
  pub allocate-Added :
      (s : DemoBufferManager) (id size : ℕ) (properties : Properties) (out : ℕ)
      (r : ℕ × ℕ × DemoBufferManager)
      → s.nr_available_pages < u64
      → allocate os s id size properties out ≡ some r
      → Outcome s id size (is_persistent properties) r
  unfolding allocate
  allocate-Added s id size properties out r small e = elim (Bool-cases (contains id s.regions)) [
    | inl is ↦ let k = rw (is) at e in rw (← some_inj _ _ k) (inl (ground arith, refl))
    | inr isnt ↦
        let e1 = sym (if_false _ _ _ isnt) ∙ e in
        let fresh = contains_fresh id s.regions isnt in
        elim (Bool-cases (size == 0 || not (size % page_size == 0))) [
          | inl bad ↦
              let k = sym (if_true _ _ _ bad) ∙ e1 in
              rw (← some_inj _ _ k) (inl (ground arith, refl))
          | inr good ↦
              let e2 = sym (if_false _ _ _ good) ∙ e1 in
              let aligned : (1 ≤ size) × (size % page_size ≡ 0) = ground (arith, good) in
              elim (Bool-cases (is_persistent properties)) [
                | inl file ↦ rw file (
                    allocate_file-Added s id size out r aligned fresh
                      (sym (if_true _ _ _ file) ∙ e2))
                | inr anon ↦ rw anon (
                    allocate_anon-Added s id size out r small aligned fresh
                      (sym (if_false _ _ _ anon) ∙ e2))
              ]
        ]
  ]
