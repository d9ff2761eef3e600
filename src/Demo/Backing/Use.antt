-- ===== src/Demo/Backing/Use.antt =====
-- Single steps in the use of regions: dirty flags, and bytes that a client writes.
use native.Mathlib.Decide.{ℕ_discrete}
use dasim.Base.{
  ℕ, ◌+◌, ◌*◌, ◌<◌, ◌≡◌, ◌≢◌, ◌∙◌, refl, sym, ap, ◌⊎◌, inl, inr, Bool, true, false, ◌&&◌, some,
  some_inj, [], if◌then◌else◌, if_false, Bool-cases, Option-cases, arith, ◌==◌, ==→eq, ne→==,
  ==_refl,
}
use dasim.Types.{page_size}
use dasim.Demo.Pte.{RegionPte}
use dasim.Demo.State.{DemoBufferManager, pte_at, update}
use dasim.Demo.State.Inv.{Inv, same-slot, with_dirty}
use dasim.Demo.Backing.{fd_of, content, view, PageAt, Backing, Everywhere}
use dasim.Demo.Backing.Places.{view-PageAt, frames_ne}

-- No page of a persistent region is in frame `p`.
abbrev pub NoFile : DemoBufferManager → ℕ → Type 0
NoFile s p =
    (id i : ℕ) (pte : RegionPte) (fd : ℕ)
    → PageAt s.regions id i pte fd
    → fd ≢ s.swapfd
    → pte.present ≡ true
    → p ≢ pte.nr

pub anon-NoFile :
    {nr : ℕ} (s : DemoBufferManager) (id i : ℕ) (pte : RegionPte)
    → Inv nr [] s
    → pte_at s.regions id i ≡ some pte
    → pte.present ≡ true
    → fd_of s.regions id ≡ some s.swapfd
    → NoFile s pte.nr
anon-NoFile s id i pte v f present anon id' i' pte' fd' at pers present' =
    elim (same-slot id i id' i') [
      | inl (er, _) ↦ absurd (pers (some_inj _ _ (sym at.backed_by ∙ rw (← er) anon)))
      | inr other ↦ frames_ne s v id i pte id' i' pte' f present at.entry present' other
    ]

-- Setting the dirty flag, or clearing that of a frame that is clean or holds no page of a file.
pub with_dirty-Backing :
    {Among : ℕ → ℕ → Type 0} (s : DemoBufferManager) (p : ℕ) (d : Bool)
    → Backing Among s
    → (d ≡ true) ⊎ (((s.page_infos p).dirty ≡ false) ⊎ NoFile s p)
    → Backing Among (with_dirty s p d)
with_dirty-Backing s p d b harmless = record {
  free_once = b.free_once;
  apart = b.apart;
  taken = b.taken;
  home = b.home;
  clean = λ id i pte fd u at pers present flag.
      b.clean id i pte fd u at pers present (elim (ℕ_discrete p pte.nr) [
        | no ne ↦ rw (ne→== p pte.nr ne) at flag
        | yes eq ↦ elim harmless [
          | inl set ↦ absurd (ground (arith, rw (← eq, ==_refl p) at flag, set))
          | inr (inl clear) ↦ rw eq at clear
          | inr (inr no_file) ↦ absurd (no_file id i pte fd at pers present eq)
        ]
      ]);
}

pub with_dirty-view :
    (s : DemoBufferManager) (p : ℕ) (d : Bool) (id i k : ℕ)
    → view (with_dirty s p d) id i k ≡ view s id i k
unfolding view content
with_dirty-view s p d id i k = refl

-- A client writes byte `k` of the page in frame `p`.
abbrev pub with_byte : DemoBufferManager → ℕ → ℕ → ℕ → DemoBufferManager
with_byte s p k x = record s { shm = update s.shm (p * page_size + k) x }

module _ {nr : ℕ} (s : DemoBufferManager) (v : Inv nr [] s) (id i : ℕ) (pte : RegionPte)
    (f : pte_at s.regions id i ≡ some pte) (present : pte.present ≡ true) (k x : ℕ)
    (below : k < page_size) where
  byte_other :
      (id' i' : ℕ) (pte' : RegionPte) (k' : ℕ)
      → pte_at s.regions id' i' ≡ some pte'
      → pte'.present ≡ true
      → (id ≢ id') ⊎ (i ≢ i')
      → k' < page_size
      → (with_byte s pte.nr k x).shm (pte'.nr * page_size + k') ≡ s.shm (pte'.nr * page_size + k')
  byte_other id' i' pte' k' f' present' other below' =
      let ne = frames_ne s v id i pte id' i' pte' f present f' present' other in
      ground (arith, ne, below, below')

  pub with_byte-Backing :
      Backing Everywhere s
      → ((s.page_infos pte.nr).dirty ≡ true) ⊎ (fd_of s.regions id ≡ some s.swapfd)
      → Backing Everywhere (with_byte s pte.nr k x)
  with_byte-Backing b dirty = record {
    free_once = b.free_once;
    apart = b.apart;
    taken = b.taken;
    home = b.home;
    clean = λ id' i' pte' fd' u at pers present' flag k' below'.
        b.clean id' i' pte' fd' u at pers present' flag k' below'
        ∙ sym (elim (same-slot id i id' i') [
          | inr other ↦ byte_other id' i' pte' k' at.entry present' other below'
          | inl (er, eo) ↦
              let is = some_inj pte pte' (sym f ∙ rw (← er, ← eo) at at.entry) in
              absurd (elim dirty [
                | inl set ↦
                    ground (arith, set, flag, ap (λ (q : RegionPte). (s.page_infos q.nr).dirty) is)
                | inr anon ↦ pers (some_inj _ _ (sym at.backed_by ∙ rw (← er) anon))
              ])
        ]);
  }

  byte_other-view :
      (id' i' k' : ℕ)
      → (id ≢ id') ⊎ (i ≢ i')
      → k' < page_size
      → view (with_byte s pte.nr k x) id' i' k' ≡ view s id' i' k'
  unfolding view content
  byte_other-view id' i' k' other below' = elim (Option-cases (pte_at s.regions id' i')) [
    | inl nothing ↦ rw nothing
    | inr (pte', e) ↦ elim (Bool-cases pte'.present) [
      | inr gone ↦ rw (e, gone)
      | inl present' ↦ elim (Option-cases (fd_of s.regions id')) [
        | inl nothing ↦ rw (e, nothing)
        | inr (fd', g) ↦
            rw (e, g, present') (ap some (byte_other id' i' pte' k' e present' other below'))
      ]
    ]
  ]

  -- The byte that is written shows, and no other byte changes.
  pub with_byte-view :
      (id' i' k' fd : ℕ)
      → fd_of s.regions id ≡ some fd
      → k' < page_size
      → view (with_byte s pte.nr k x) id' i' k'
        ≡ (if (id == id') && ((i == i') && (k == k')) then some x else view s id' i' k')
  unfolding content
  with_byte-view id' i' k' fd backed below' = elim (same-slot id i id' i') [
    | inr other ↦
        let ne : ((id == id') && ((i == i') && (k == k'))) ≡ false = ground (arith, other) in
        byte_other-view id' i' k' other below' ∙ sym (if_false _ _ _ ne)
    | inl (er, eo) ↦
        let at : PageAt s.regions id i pte fd = record { entry = f; backed_by = backed } in
        rw (← er, ← eo, ==_refl id, ==_refl i)
          (view-PageAt (with_byte s pte.nr k x) id i k' pte fd at
            ∙ rw present (elim (Bool-cases (k == k')) [
              | inl eq ↦
                  let here : pte.nr * page_size + k ≡ pte.nr * page_size + k' =
                    ap (λ (j : ℕ). pte.nr * page_size + j) (==→eq k k' eq) in
                  rw (eq, here, ==_refl (pte.nr * page_size + k'))
              | inr ne ↦
                  let differ : (pte.nr * page_size + k == pte.nr * page_size + k') ≡ false =
                    ground (arith, ne) in
                  rw (ne, differ) (sym (view-PageAt s id i k' pte fd at ∙ rw present))
            ]))
  ]
