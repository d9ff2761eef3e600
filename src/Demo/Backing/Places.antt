-- ===== src/Demo/Backing/Places.antt =====
-- Pages of the state, and the places that they own, when a page table entry changes.
use dasim.Base.{
  [], ◌≢◌, true, ◌⊎◌, inl, inr, sym, ap, ◌∙◌, ℕ, ◌≡◌, ◌≢◌, refl, sym, ap, inl, inr, true, false,
  some, Map, lookup, Option-cases, Bool-cases, arith, ◌==◌,
}
use dasim.Demo.Pte.{RegionPte, Region}
use dasim.Demo.State.{pte_at, DemoBufferManager, set_pte}
use dasim.Demo.State.Inv.{Inv}
use dasim.Demo.State.Slots.{lookup-set_pte}
use dasim.Demo.Backing.{fd_of, content, view, PageAt, Owns, Backing}

pub fd_of-set_pte :
    (rs : Map Region) (id i : ℕ) (pte : RegionPte) (id' : ℕ)
    → fd_of (set_pte rs id i pte) id' ≡ fd_of rs id'
unfolding fd_of set_pte
fd_of-set_pte rs id i pte id' = elim (Option-cases (lookup id rs)) [
  | inl n ↦ rw (n, set_pte)
  | inr (r, f) ↦ rw (lookup-set_pte rs id i pte r id' f) (ground (arith, f, ap (λ k. lookup k rs)))
]

pub view-PageAt :
    (s : DemoBufferManager) (id i k : ℕ) (pte : RegionPte) (fd : ℕ)
    → PageAt s.regions id i pte fd
    → view s id i k ≡ some (content s fd pte k)
unfolding view
view-PageAt s id i k pte fd at = rw (at.entry, at.backed_by)

-- A swapped page owns the place that it was swapped to.
pub swapped-Owns :
    {Among : ℕ → ℕ → Type 0} (s : DemoBufferManager) (id i : ℕ) (pte : RegionPte) (fd : ℕ)
    → Backing Among s
    → Among id i
    → PageAt s.regions id i pte fd
    → pte.present ≡ false
    → pte.swap ≡ true
    → Owns s.regions s.swapfd id i fd pte.nr
swapped-Owns s id i pte fd b among at absent swapped = record {
  pte = pte;
  page = at;
  place = elim (Bool-cases (fd == s.swapfd)) [
    | inl anon ↦ inl (ground (arith, anon), absent, swapped, refl)
    | inr pers ↦
        let ne : fd ≢ s.swapfd = ground (arith, pers) in
        inr (ne, sym (b.home id i pte fd among at ne absent swapped))
  ];
}

-- Different pages that are present are in different frames.
pub frames_ne :
    {nr : ℕ} (s : DemoBufferManager)
    → Inv nr [] s
    → (id i : ℕ) (pte : RegionPte) (id' i' : ℕ) (pte' : RegionPte)
    → pte_at s.regions id i ≡ some pte
    → pte.present ≡ true
    → pte_at s.regions id' i' ≡ some pte'
    → pte'.present ≡ true
    → (id ≢ id') ⊎ (i ≢ i')
    → pte.nr ≢ pte'.nr
frames_ne s v id i pte id' i' pte' f present f' present' other eq =
    let hold = v.backed id i pte f present in
    let hold' = v.backed id' i' pte' f' present' in
    elim other [
      | inl n ↦ n (sym hold.of_region ∙ ap (λ q. (s.page_infos q).region_id) eq ∙ hold'.of_region)
      | inr n ↦ n (sym hold.at_off ∙ ap (λ q. (s.page_infos q).off) eq ∙ hold'.at_off)
    ]
