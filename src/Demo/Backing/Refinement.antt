-- ===== src/Demo/Backing/Refinement.antt =====
-- The manager implements the memory that clients see.
use dasim.Base.{
  arith, ltb, ==→ne, ==→eq, ==_refl, ℕ, ◌/◌, ◌<◌, ◌≡◌, ◌∙◌, refl, sym, ap, ◌⊎◌, inl, inr, Bool,
  true, false, some, some_inj, List, [], if_true, >>=-eq-some, Bool-cases, lookup, ◌==◌,
}
use dasim.Types.{Properties, page_size, UnfixResult, MarkDirtyResult}
use dasim.Demo.Pte.{RegionPte, is_present, get_pte, get_page_nr}
use dasim.Demo.PageIo.{Os}
use dasim.Demo.PageIo.Transfers.{WritesMove}
use dasim.Demo.State.{DemoBufferManager, pte_at}
use dasim.Demo.State.Inv.{Inv, with_dirty, with_dirty-Inv}
use dasim.Demo.Paging.{unfix, unfix_present, mark_dirty}
use dasim.Demo.Paging.Frames.{unfix-Inv}
use dasim.Demo.Backing.{view, Backing, Everywhere}
use dasim.Demo.Backing.Transparent.{unfix-Transparent}
use dasim.Demo.Backing.Gone.{free-Gone}
use dasim.Demo.Regions.Free.{free-Inv}
use dasim.Demo.Backing.WrittenBack.{persist-Kept}
use dasim.Demo.Backing.NewRegion.{OpensFresh}
use dasim.Demo.Backing.Shown.{fill, allocate-Shows}
use dasim.Demo.Regions.{allocate}
use dasim.Demo.Regions.Lifetime.{allocate-Inv}
use dasim.Demo.Backing.Use.{
  NoFile, anon-NoFile, with_dirty-Backing, with_dirty-view, with_byte-Backing, with_byte-view,
}
use dasim.Demo.Backing.Memory.{
  Event, wrote, made, happen, recall, Run, starts, faults, touches, marks, stores, persists, makes,
  frees, freed, happen-cong,
}

pub unfix-with_dirty :
    (os : Os) (s : DemoBufferManager) (id off : ℕ) (write : Bool) (pte : RegionPte)
    (res : UnfixResult) (s' : DemoBufferManager)
    → pte_at s.regions id (off / page_size) ≡ some pte
    → pte.present ≡ true
    → unfix os s id off write ≡ some (res, s')
    → with_dirty s pte.nr write ≡ s'
unfolding unfix unfix_present get_page_nr pte_at
unfix-with_dirty os s id off write pte res s' f present e =
    let (region, has_region, e1) = >>=-eq-some (lookup id s.regions) _ e in
    let has_pte : get_pte region (off / page_size) ≡ some pte = rw (has_region) at f in
    let e2 = rw (has_pte) at e1 in
    let e3 = sym (if_true (is_present pte) _ _ present) ∙ e2 in
    let k = some_inj _ _ (rw (present, unfix_present, get_page_nr) at e3) in
    ap (λ (u : UnfixResult × DemoBufferManager). u.1) k

mark_dirty-with_dirty :
    (s : DemoBufferManager) (id off : ℕ) (res : MarkDirtyResult) (s' : DemoBufferManager)
    → mark_dirty s id off ≡ some (res, s')
    → (s ≡ s') ⊎ ((p : ℕ) × (with_dirty s p true ≡ s'))
unfolding mark_dirty
mark_dirty-with_dirty s id off res s' e =
    let (region, _, e1) = >>=-eq-some (lookup id s.regions) _ e in
    let (pte, _, e2) = >>=-eq-some (get_pte region (off / page_size)) _ e1 in
    elim (Bool-cases pte.present) [
      | inl present ↦
          let k = some_inj _ _ (rw present at e2) in
          inr (pte.nr, ap (λ (u : MarkDirtyResult × DemoBufferManager). u.1) k)
      | inr absent ↦
          let k = some_inj _ _ (rw absent at e2) in
          inl (ap (λ (u : MarkDirtyResult × DemoBufferManager). u.1) k)
    ]

-- What holds after a run.
pub record Implements (nr : ℕ) (s : DemoBufferManager) (ws : List Event) (s' : DemoBufferManager)
    : Type 0 where
  pub inv : Inv nr [] s'
  pub backing : Backing Everywhere s'
  pub shows : (id i k : ℕ) → k < page_size → view s' id i k ≡ recall ws (view s) id i k

with_dirty-Implements :
    {nr : ℕ} (s : DemoBufferManager) (ws : List Event) (t : DemoBufferManager) (p : ℕ) (d : Bool)
    → Implements nr s ws t
    → (d ≡ true) ⊎ (((t.page_infos p).dirty ≡ false) ⊎ NoFile t p)
    → Implements nr s ws (with_dirty t p d)
with_dirty-Implements s ws t p d m harmless = record {
  inv = with_dirty-Inv t p d m.inv;
  backing = with_dirty-Backing t p d m.backing harmless;
  shows = λ id i k below. with_dirty-view t p d id i k ∙ m.shows id i k below;
}

-- The memory after a region is made.
made-recall :
    (os : Os) (t : DemoBufferManager) (id size : ℕ) (properties : Properties) (out addr : ℕ)
    (u : DemoBufferManager)
    → WritesMove os
    → OpensFresh os t id
    → Backing Everywhere t
    → allocate os t id size properties out ≡ some (0, addr, u)
    → (id' i k : ℕ) → k < page_size
    → view u id' i k ≡ happen (made id (size / page_size) (fill properties)) (view t) id' i k
made-recall os t id size properties out addr u moves opens b e id' i k below =
    let (_, others, inside, past) =
      allocate-Shows os t id size properties out (0, addr, u) moves opens b e refl in
    elim (Bool-cases (id == id')) [
      | inr ne ↦ rw ne (others id' i k (==→ne id id' ne))
      | inl same ↦
          rw (← ==→eq id id' same, ==_refl id)
            (elim (Bool-cases (ltb i (size / page_size))) [
              | inl lt ↦ rw lt (inside i k (ground (arith, lt)) below)
              | inr ge ↦ rw ge (past i k (ground (arith, ge)))
            ])
    ]

-- The manager implements a memory over any run of these steps, each with answers of the operating
-- system of its own: a fault on an absent page, where reads are whole; a fault on a present page,
-- but no fault to read a dirty page of a persistent region; pages marked dirty; stores of clients to
-- pages that are present, and dirty if their region is persistent; calls of `persist` for
-- persistent regions; calls of `allocate` that succeed, where the descriptor of a file is not one in
-- use; and calls of `free` for regions that are not anchored. Writes to files succeed and move some
-- of their bytes. If the frame invariant and the conditions on the files held at first, they hold
-- afterwards, and every byte of every page is what was stored there last, or what its region was
-- filled with when it was made, or what it was at first, and there is none where the region was
-- freed or has no such page.
pub Run-Implements :
    {nr : ℕ} (s : DemoBufferManager) (ws : List Event) (s' : DemoBufferManager)
    → Inv nr [] s
    → Backing Everywhere s
    → Run s ws s'
    → Implements nr s ws s'
Run-Implements s ws s' v b starts = record { inv = v; backing = b; shows = λ id i k below. refl }
Run-Implements {nr} s _ s' v b (faults os id off write pte res {ws} {t} reads moves r f absent e) =
    let m = Run-Implements s ws t v b r in
    let (shows, backing) =
      unfix-Transparent os t id off write pte res s' m.inv m.backing reads moves f absent e in
    record {
      inv = unfix-Inv nr os t id off write res s' m.inv e;
      backing = backing;
      shows = λ id' i k below. shows id' i k below ∙ m.shows id' i k below;
    }
Run-Implements s _ s' v b (touches os id off write pte res {ws} {t} r f present harmless e) =
    let m = Run-Implements s ws t v b r in
    rw (← unfix-with_dirty os t id off write pte res s' f present e) (
      with_dirty-Implements s ws t pte.nr write m (elim harmless [
        | inl writes ↦ inl writes
        | inr (inl clean) ↦ inr (inl clean)
        | inr (inr anon) ↦ inr (inr (anon-NoFile t id (off / page_size) pte m.inv f present anon))
      ]))
Run-Implements s _ s' v b (marks id off res {ws} {t} r e) =
    let m = Run-Implements s ws t v b r in
    elim (mark_dirty-with_dirty t id off res s' e) [
      | inl same ↦ rw (← same) m
      | inr (p, set) ↦ rw (← set) (with_dirty-Implements s ws t p true m (inl refl))
    ]
Run-Implements s _ s' v b (stores id i k x pte fd {ws} {t} r at present dirty below) =
    let m = Run-Implements s ws t v b r in
    record {
      inv = m.inv;
      backing = with_byte-Backing t m.inv id i pte at.entry present k x below m.backing dirty;
      shows = λ id' i' k' below'.
          with_byte-view t m.inv id i pte at.entry present k x below id' i' k' fd at.backed_by
            below'
          ∙ happen-cong (wrote id i k x) (view t) (recall ws (view s)) id' i' k'
              (m.shows id' i' k' below');
    }
Run-Implements s _ s' v b (persists os id off size fd {ws} {t} moves r backed pers e) =
    let m = Run-Implements s ws t v b r in
    let kept = persist-Kept os t id off size fd s' moves m.inv m.backing backed pers e in
    record {
      inv = kept.inv;
      backing = kept.backing;
      shows = λ id' i k below. kept.shows id' i k below ∙ m.shows id' i k below;
    }
Run-Implements s _ s' v b (makes os id size properties out addr {ws} {t} moves r opens e) =
    let m = Run-Implements s ws t v b r in
    let shown =
      allocate-Shows os t id size properties out (0, addr, s') moves opens m.backing e refl in
    record {
      inv = allocate-Inv os t id size properties out (0, addr, s') m.inv e;
      backing = shown.0;
      shows = λ id' i k below.
          made-recall os t id size properties out addr s' moves opens m.backing e id' i k below
          ∙ happen-cong (made id (size / page_size) (fill properties)) (view t) (recall ws (view s))
              id' i k (m.shows id' i k below);
    }
Run-Implements {nr} s _ s' v b (frees os id region {ws} {t} moves r found loose e) =
    let m = Run-Implements s ws t v b r in
    let (backing, shows) = free-Gone os t id region s' moves m.inv m.backing found loose e in
    record {
      inv = free-Inv nr os t id s' m.inv e;
      backing = backing;
      shows = λ id' i k below.
          shows id' i k below
          ∙ happen-cong (freed id) (view t) (recall ws (view s)) id' i k (m.shows id' i k below);
    }
