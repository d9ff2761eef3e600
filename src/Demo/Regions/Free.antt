-- ===== src/Demo/Regions/Free.antt =====
-- `free` gives all frames of the region back, and keeps the frame invariant.
mod Entries
pub use Entries.*
use mathlib.Core.Path.{subst}
use native.Mathlib.Nat.{add-zero}
use native.Mathlib.Decide.{ℕ_discrete}
use dasim.Base.{
  ℕ, suc, ◌+◌, ◌<◌, ◌≡◌, ◌≢◌, ◌∙◌, refl, sym, ap, true, false, not, ◌&&◌, some, some_inj, if_true,
  if_false, List, [], ◌∷◌, ◌++◌, length, get_elem?, get_elem?-lt, count-append, erase, Map, lookup,
  remove, if◌then◌else◌, ◌>>=◌, >>=-eq-some, arith, inl, inr, ◌⊎◌, Bool-cases, Option-cases,
}
use dasim.Demo.Pte.{RegionPte, Region, make_swap, get_swap_ix}
use dasim.Demo.PageIo.{Os}
use dasim.Demo.State.{DemoBufferManager, is_anon, pte_at, set_pte}
use dasim.Demo.State.Slots.{
  pte_at-remove_self, pte_at-remove_ne, pte_at-lookup, pte_at-set_pte_self, pte_at-set_pte_ne,
}
use dasim.Demo.State.Inv.{Inv, Holds, with_regions, with_regions-Inv}
use dasim.Demo.Paging.{swap_out_page_data}
use dasim.Demo.Paging.Frames.{swap_out_page_data-eq}
use dasim.Demo.Paging.SwapOut.{unwritten}
use dasim.Demo.Paging.Evicted.{unwritten-Inv}
use dasim.Demo.Regions.{free_pte, free_ptes, free}

-- After the loop over the entries from page `j` on: the frame invariant holds of regions `rs'` that
-- agree with `rs` on all other regions, and where nothing from page `j` on is present.
record Freed (nr : ℕ) (rs : Map Region) (id j : ℕ) (s' : DemoBufferManager) : Type 0 where
  after : Map Region
  inv : Inv nr [] (with_regions s' after)
  others : (id' i : ℕ) → id ≢ id' → pte_at after id' i ≡ pte_at rs id' i
  cleared :
      (i : ℕ) (pte : RegionPte)
      → pte_at after id i ≡ some pte
      → pte.present ≡ true
      → (i < j) × (pte_at rs id i ≡ some pte)

Freed-step :
    {nr : ℕ} {rs : Map Region} (rs1 : Map Region) {id : ℕ} (j : ℕ) {s' : DemoBufferManager}
    → Freed nr rs1 id (j + 1) s'
    → ((id' i : ℕ) → (id ≢ id') ⊎ (j ≢ i) → pte_at rs1 id' i ≡ pte_at rs id' i)
    → ((pte : RegionPte) → pte_at rs1 id j ≡ some pte → pte.present ≡ false)
    → Freed nr rs id j s'
Freed-step rs1 {id} j f agree gone = record {
  after = f.after;
  inv = f.inv;
  others = λ id' i ne. f.others id' i ne ∙ agree id' i (inl ne);
  cleared = λ i pte e pr.
      let (lt, e1) = f.cleared i pte e pr in
      elim (ℕ_discrete j i) [
        | yes same ↦ absurd (ground (arith, pr, gone pte (rw same e1)))
        | no ne ↦ (omega arith, sym (agree id i (inr ne)) ∙ e1)
      ];
}

-- The entries `ptes` are those of the region from page `j` on, and the region ends with them.
record Rest (rs : Map Region) (id j : ℕ) (ptes : List RegionPte) : Type 0 where
  at : (k : ℕ) (pte : RegionPte) → get_elem? ptes k ≡ some pte → pte_at rs id (j + k) ≡ some pte
  bound : (i : ℕ) (pte : RegionPte) → pte_at rs id i ≡ some pte → i < j + length ptes

Rest-first :
    {rs : Map Region} {id j : ℕ} {ptes : List RegionPte} (pte : RegionPte)
    → Rest rs id j (pte ∷ ptes)
    → pte_at rs id j ≡ some pte
Rest-first {rs} {id} {j} pte r = rw (← add-zero j) (r.at 0 pte refl)

Rest-next :
    {rs : Map Region} {id j : ℕ} {ptes : List RegionPte} (pte : RegionPte)
    → Rest rs id j (pte ∷ ptes)
    → Rest rs id (j + 1) ptes
Rest-next {rs} {id} {j} pte r = record {
  at = λ k q f. ap (pte_at rs id) (omega arith) ∙ r.at (suc k) q f;
  bound = λ i q f. omega (arith, r.bound i q f);
}

-- What stands in the entry before is nothing to the entries after it.
Rest-set_pte :
    {rs : Map Region} {id : ℕ} (j : ℕ) {ptes : List RegionPte} (blank : RegionPte)
    → Rest rs id (j + 1) ptes
    → Rest (set_pte rs id j blank) id (j + 1) ptes
Rest-set_pte {rs} {id} j blank r = record {
  at = λ k q f.
      pte_at-set_pte_ne rs id j blank id (j + 1 + k) (inr (λ eq. absurd (omega arith)))
      ∙ r.at k q f;
  bound = λ i q f. elim (ℕ_discrete j i) [
    | yes same ↦ omega arith
    | no ne ↦ r.bound i q (sym (pte_at-set_pte_ne rs id j blank id i (inr ne)) ∙ f)
  ];
}

free_ptes-Freed :
    (nr : ℕ) (os : Os) (region : Region) (id : ℕ) (ptes : List RegionPte) (j : ℕ)
    (s s' : DemoBufferManager) (rs : Map Region)
    → Rest rs id j ptes
    → Inv nr [] (with_regions s rs)
    → free_ptes os region ptes s ≡ some s'
    → Freed nr rs id j s'
unfolding free_ptes make_swap
free_ptes-Freed nr os region id [] j s s' rs rest v e = record {
  after = rs;
  inv = rw (← some_inj _ _ e) v;
  others = λ id' i ne. refl;
  cleared = λ i pte f pr. (omega (arith, rest.bound i pte f), f);
}
free_ptes-Freed nr os region id (pte ∷ ptes) j s s' rs rest v e =
    elim (Option-cases (free_pte os region pte s)) [
      | inl n ↦ absurd (ground arith)
      | inr (s1, e1) ↦
          let e2 : free_ptes os region ptes s1 ≡ some s' = rw (e1, free_ptes) at e in
          let here = Rest-first pte rest in
          elim (Bool-cases pte.present) [
            | inl present ↦
                let blank : RegionPte = make_swap pte 0 in
                let rs1 : Map Region = set_pte rs id j blank in
                let v1 : Inv nr [] (with_regions s1 rs1) =
                  rw (free_pte_present os region pte s s1 present e1)
                    (gave_back-Inv nr s rs id j pte v here present) in
                Freed-step rs1 j
                  (free_ptes-Freed nr os region id ptes (j + 1) s1 s' rs1
                    (Rest-set_pte j blank (Rest-next pte rest)) v1 e2)
                  (pte_at-set_pte_ne rs id j blank)
                  (λ q f.
                    ap (λ (t : RegionPte). t.present)
                      (some_inj _ _ (sym f ∙ pte_at-set_pte_self rs id j blank pte here)))
            | inr absent ↦
                let v1 : Inv nr [] (with_regions s1 rs) =
                  rw (free_pte_absent os region pte s s1 absent e1) v in
                Freed-step rs j
                  (free_ptes-Freed nr os region id ptes (j + 1) s1 s' rs (Rest-next pte rest) v1 e2)
                  (λ id' i ne. refl)
                  (λ q f. ap (λ (t : RegionPte). t.present) (some_inj _ _ (sym f ∙ here)) ∙ absent)
          ]
    ]

pub free_ptes-regions :
    (os : Os) (region : Region) (ptes : List RegionPte) (s s' : DemoBufferManager)
    → free_ptes os region ptes s ≡ some s'
    → s'.regions ≡ s.regions
unfolding free_ptes
free_ptes-regions os region [] s s' e = rw (← some_inj _ _ e)
free_ptes-regions os region (pte ∷ ptes) s s' e = elim (Option-cases (free_pte os region pte s)) [
  | inl n ↦ absurd (ground arith)
  | inr (s1, e1) ↦
      free_ptes-regions os region ptes s1 s' (rw (e1, free_ptes) at e)
      ∙ elim (Bool-cases pte.present) [
        | inl present ↦
            ap (λ (t : DemoBufferManager). t.regions)
              (free_pte_present os region pte s s1 present e1)
        | inr absent ↦
            ap (λ (t : DemoBufferManager). t.regions) (free_pte_absent os region pte s s1 absent e1)
      ]
]

-- The loop of `free` over all entries of a region that has left m_regions.
freed-Inv :
    (nr : ℕ) (os : Os) (s : DemoBufferManager) (id : ℕ) (region : Region) (s' : DemoBufferManager)
    → Inv nr [] s
    → lookup id s.regions ≡ some region
    → free_ptes os region region.ptes (record s { regions = remove id s.regions }) ≡ some s'
    → Inv nr [] s'
freed-Inv nr os s id region s' v found e =
    let left : DemoBufferManager = record s { regions = remove id s.regions } in
    let f : Freed nr s.regions id 0 s' =
      free_ptes-Freed nr os region id region.ptes 0 left s' s.regions
        record {
          at = λ k pte g.
              ap (pte_at s.regions id) (omega arith)
              ∙ pte_at-lookup s.regions id region k found
              ∙ g;
          bound = λ i pte g.
              let lt =
                get_elem?-lt region.ptes i pte
                  (sym (pte_at-lookup s.regions id region i found) ∙ g) in
              omega (arith, lt);
        }
        v e in
    let rs : Map Region = remove id s.regions in
    let same : s'.regions ≡ rs = free_ptes-regions os region region.ptes left s' e in
    subst (λ (m : Map Region). Inv nr [] (with_regions s' m)) (sym same)
      (with_regions-Inv s' f.after rs f.inv (λ id' i pte pr. elim (ℕ_discrete id id') [
        | yes is ↦ (
          λ g.
              absurd
                (ground (arith, pte_at-remove_self s.regions id i, ap (λ k. pte_at rs k i) is, g)),
          λ g. absurd (ground (arith, f.cleared i pte (rw is g) pr)),
        )
        | no ne ↦
            let here = f.others id' i ne in
            let there = pte_at-remove_ne s.regions id id' i ne in
            (λ g. here ∙ sym there ∙ g, λ g. there ∙ sym here ∙ g)
      ]))

-- `free` keeps the frame invariant.
pub free-Inv :
    (nr : ℕ) (os : Os) (s : DemoBufferManager) (id : ℕ) (s' : DemoBufferManager)
    → Inv nr [] s
    → free os s id ≡ some s'
    → Inv nr [] s'
unfolding free
free-Inv nr os s id s' v e = elim (Option-cases (lookup id s.regions)) [
  | inl n ↦ rw (← some_inj _ _ (rw (n, free) at e)) v
  | inr (region, found) ↦
      let e1 = rw (found, free) at e in
      elim (Bool-cases region.anchored) [
        | inl anchored ↦ rw (← some_inj _ _ (sym (if_true _ _ _ anchored) ∙ e1)) v
        | inr loose ↦
            let e2 = sym (if_false _ _ _ loose) ∙ e1 in
            let (s1, f, k) =
              >>=-eq-some
                (free_ptes os region region.ptes (record s { regions = remove id s.regions })) _
                e2 in
            let v1 : Inv nr [] s1 = freed-Inv nr os s id region s1 v found f in
            elim (Bool-cases (is_anon s1 region)) [
              | inl anon ↦ rw (← some_inj _ _ k, anon) v1
              | inr pers ↦ rw (← some_inj _ _ k, pers) v1
            ]
      ]
]
