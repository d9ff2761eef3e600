-- ===== src/Demo/Regions/Lifetime.antt =====
-- The other operations on regions keep the frame invariant: the constructor, `allocate`, `anchor`,
-- `unanchor` and `get_anchored_region`.
mod NewRegion
pub use NewRegion.*
use native.Mathlib.Decide.{ℕ_discrete}
use dasim.Base.{
  ℕ, zero, suc, ◌+◌, ◌/◌, ◌%◌, ◌≡◌, ◌∙◌, refl, sym, ap, Bool, true, false, not, ◌||◌, none, some,
  some_inj, if_true, if_false, List, [], ◌∷◌, get_elem?, replicate, count-range, count-range_above,
  lookup, insert, contains, contains_fresh, emplace_fresh, ltb, >>=-eq-some, arith, inl, inr,
  Bool-cases, Option-cases, ◌==◌, sub64,
}
use dasim.Types.{page_size, Properties, AnchoredRegion}
use dasim.Demo.Pte.{RegionPte, Region, empty_pte, make_swap, make_swap_all, new_region}
use dasim.Demo.PageIo.{Os, OpenResult-cases, init_pages}
use dasim.Demo.State.{DemoBufferManager, is_anon, pte_at, construct}
use dasim.Demo.State.Slots.{pte_at-lookup, pte_at-lookup-none, pte_at-insert_self, pte_at-insert_ne}
use dasim.Demo.State.Inv.{Inv, with_regions-Inv}
use dasim.Demo.Regions.{
  add_region, add_new_region, allocate, allocate_file, anchor, unanchor, get_anchored_region,
  is_persistent,
}

-- A new manager has all its frames free.
pub construct-Inv : (swapfd nr swap : ℕ) → Inv nr [] (construct swapfd nr swap)
unfolding construct pte_at
construct-Inv swapfd nr swap = record {
  frames = λ p. elim (Bool-cases (ltb p nr)) [
    | inl lt ↦ rw lt (omega (arith, count-range p 0 nr (omega arith) (ground arith)))
    | inr ge ↦ rw ge (omega (arith, count-range_above p 0 nr (ground arith)))
  ];
  backed = λ id i pte e pr. absurd (cc);
  owned = λ p h. absurd (omega arith);
}

-- `add_region` of a name that is not in use.
pub add_region-Inv :
    {nr : ℕ} (os : Os) (s : DemoBufferManager) (id size swapfd : ℕ) (persistent anchored : Bool)
    (addr_out : ℕ)
    → Inv nr [] s
    → lookup id s.regions ≡ none
    → Inv nr [] (add_region os s id size swapfd persistent anchored addr_out).2
unfolding add_region
add_region-Inv os s id size swapfd persistent anchored addr_out v fresh =
    elim (Bool-cases (os.reserve size == 0)) [
      | inl failed ↦ rw failed v
      | inr mapped ↦
          let region : Region = new_region (os.reserve size) size swapfd persistent anchored in
          rw (mapped, emplace_fresh id region s.regions fresh)
            (insert-Inv s id region v fresh
              (new_region-absent (os.reserve size) size swapfd persistent anchored))
    ]

-- `anchor` keeps the frame invariant.
pub anchor-Inv : {nr : ℕ} (s : DemoBufferManager) (id : ℕ) → Inv nr [] s → Inv nr [] (anchor s id).1
unfolding anchor
anchor-Inv s id v = elim (Option-cases (lookup id s.regions)) [
  | inl n ↦ rw (n, anchor) v
  | inr (region, found) ↦ elim (Bool-cases (is_anon s region)) [
    | inl anon ↦ rw (found, anchor, anon) v
    | inr pers ↦ rw (found, anchor, pers) (replace-Inv s id region _ v found refl)
  ]
]

-- `unanchor` keeps the frame invariant.
pub unanchor-Inv :
    {nr : ℕ} (s : DemoBufferManager) (id : ℕ) → Inv nr [] s → Inv nr [] (unanchor s id).1
unfolding unanchor
unanchor-Inv s id v = elim (Option-cases (lookup id s.regions)) [
  | inl n ↦ rw (n, unanchor) v
  | inr (region, found) ↦ rw (found, unanchor) (replace-Inv s id region _ v found refl)
]

-- `get_anchored_region` keeps the frame invariant.
pub get_anchored_region-Inv :
    {nr : ℕ} (os : Os) (s : DemoBufferManager) (id : ℕ) (out : AnchoredRegion)
    → Inv nr [] s
    → Inv nr [] (get_anchored_region os s id out).2
unfolding get_anchored_region
get_anchored_region-Inv os s id out v = elim (Option-cases (lookup id s.regions)) [
  | inr (region, found) ↦ rw (found, get_anchored_region) v
  | inl n ↦ elim (Option-cases (os.open_file id)) [
    | inl closed ↦ rw (n, closed, get_anchored_region) v
    | inr (fd, open_) ↦ elim (Option-cases (os.file_size fd)) [
      | inl unknown ↦ rw (n, open_, unknown, get_anchored_region) v
      | inr (size, known) ↦
          rw (n, open_, known, get_anchored_region)
            (add_region-Inv os s id size fd true true out.addr v n)
    ]
  ]
]

add_new_region-Inv :
    {nr : ℕ} (os : Os) (s : DemoBufferManager) (id size swapfd : ℕ) (persistent : Bool)
    (addr_out : ℕ) (out : ℕ × ℕ × DemoBufferManager)
    → Inv nr [] s
    → lookup id s.regions ≡ none
    → add_new_region os s id size swapfd persistent addr_out ≡ some out
    → Inv nr [] out.2
unfolding add_new_region
add_new_region-Inv os s id size swapfd persistent addr_out out v fresh e =
    let added = add_region-Inv os s id size swapfd persistent false addr_out v fresh in
    let r : ℕ × ℕ × DemoBufferManager = add_region os s id size swapfd persistent false addr_out in
    elim (Bool-cases (not (r.0 == 0))) [
      | inl failed ↦ rw (← some_inj _ _ (sym (if_true _ _ _ failed) ∙ e)) added
      | inr done ↦
          let e1 = sym (if_false _ _ _ done) ∙ e in
          elim (Bool-cases persistent) [
            | inl pers ↦
                let (file, _, k) =
                  >>=-eq-some (init_pages os (size / page_size) 0 swapfd (r.2.files swapfd)) _
                    (sym (if_true _ _ _ pers) ∙ e1) in
                rw (← some_inj _ _ k) added
            | inr anon ↦ rw (← some_inj _ _ (sym (if_false _ _ _ anon) ∙ e1)) added
          ]
    ]

allocate_file-Inv :
    {nr : ℕ} (os : Os) (s : DemoBufferManager) (id size addr_out : ℕ)
    (out : ℕ × ℕ × DemoBufferManager)
    → Inv nr [] s
    → lookup id s.regions ≡ none
    → allocate_file os s id size addr_out ≡ some out
    → Inv nr [] out.2
unfolding allocate_file
allocate_file-Inv os s id size addr_out out v fresh e =
    elim (OpenResult-cases (os.create_file id)) [
      | inl (errsv, failed) ↦ rw (← some_inj _ _ (rw (failed, allocate_file) at e)) v
      | inr (fd, made) ↦
          let e1 = rw (made, allocate_file) at e in
          elim (Bool-cases (os.truncate_fails fd size)) [
            | inl failed ↦ rw (← some_inj _ _ (sym (if_true _ _ _ failed) ∙ e1)) v
            | inr sized ↦
                add_new_region-Inv os s id size fd true addr_out out v fresh
                  (sym (if_false _ _ _ sized) ∙ e1)
          ]
    ]

-- `allocate` keeps the frame invariant.
pub allocate-Inv :
    {nr : ℕ} (os : Os) (s : DemoBufferManager) (id size : ℕ) (properties : Properties)
    (addr_out : ℕ) (out : ℕ × ℕ × DemoBufferManager)
    → Inv nr [] s
    → allocate os s id size properties addr_out ≡ some out
    → Inv nr [] out.2
unfolding allocate
allocate-Inv os s id size properties addr_out out v e = elim (Bool-cases (contains id s.regions)) [
  | inl exists ↦ rw (← some_inj _ _ (sym (if_true _ _ _ exists) ∙ e)) v
  | inr new ↦
      let fresh = contains_fresh id s.regions new in
      let e1 = sym (if_false _ _ _ new) ∙ e in
      elim (Bool-cases (size == 0 || not (size % page_size == 0))) [
        | inl odd ↦ rw (← some_inj _ _ (sym (if_true _ _ _ odd) ∙ e1)) v
        | inr whole ↦
            let e2 = sym (if_false _ _ _ whole) ∙ e1 in
            elim (Bool-cases (is_persistent properties)) [
              | inl pers ↦
                  allocate_file-Inv os s id size addr_out out v fresh
                    (sym (if_true _ _ _ pers) ∙ e2)
              | inr anon ↦
                  let e3 = sym (if_false _ _ _ anon) ∙ e2 in
                  elim (Bool-cases (ltb s.nr_available_pages (size / page_size))) [
                    | inl full ↦ rw (← some_inj _ _ (sym (if_true _ _ _ full) ∙ e3)) v
                    | inr room ↦
                        add_new_region-Inv os
                          (record s {
                            nr_available_pages = sub64 s.nr_available_pages (size / page_size);
                          })
                          id size s.swapfd false addr_out out v fresh
                          (sym (if_false _ _ _ room) ∙ e3)
                  ]
            ]
      ]
]
