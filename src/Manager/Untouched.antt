-- ===== src/Manager/Untouched.antt =====
-- The operations of the client manager that leave its regions as they are.
use dasim.Base.{
  ℕ, zero, suc, ◌+◌, ◌-◌, ◌/◌, ◌≡◌, ◌∙◌, refl, sym, true, not, ◌||◌, ◌==◌, some, some_inj, if_false,
  lookup, contains, ltb, add64, >>=-eq-some, arith, inl, inr, Bool-cases, Option-cases,
}
use dasim.Types.{Properties, page_size}
use dasim.Manager.Interface.{BufferManager}
use dasim.Manager.State.{Kernel, emit, block_pfs}
use dasim.Manager.Ops.{Cm, anchor, advise, unanchor, get_size, persist, protect_pages}

module _ (bm : BufferManager) (kernel : Kernel) where
  protect_pages-regions :
      (rounds addr : ℕ) (m : Cm bm kernel)
      → (protect_pages bm kernel rounds addr m).regions ≡ m.regions
  unfolding protect_pages
  protect_pages-regions zero addr m = refl
  protect_pages-regions (suc rounds) addr m = protect_pages-regions rounds _ _

  pub persist-regions :
      (m : Cm bm kernel) (id off n : ℕ) (r : ℕ × Cm bm kernel)
      → persist bm kernel m id off n ≡ some r
      → r.1.regions ≡ m.regions
  unfolding persist
  persist-regions m id off n r e = elim (Option-cases (lookup id m.regions)) [
    | inl absent ↦ let k = rw (absent, persist) at e in rw (← some_inj _ _ k) refl
    | inr (region, found) ↦
        let e1 = rw (found, persist) at e in
        elim (Bool-cases (ltb region.size off || ltb region.size (add64 off n))) [
          | inl bad ↦ let k = rw (bad) at e1 in rw (← some_inj _ _ k) refl
          | inr fits ↦
              let e2 = rw (fits) at e1 in
              elim (Bool-cases (not (bm.can_persist m.buffer_manager id off n == 0))) [
                | inl barred ↦ let k = rw (barred) at e2 in rw (← some_inj _ _ k) refl
                | inr can ↦
                    let rounds = (n + (page_size - 1)) / page_size in
                    let from = add64 region.addr off in
                    let blocked = emit m (block_pfs id true) in
                    let protected = protect_pages bm kernel rounds from blocked in
                    let (b, _, k) =
                      >>=-eq-some (bm.persist protected.buffer_manager id off n) _
                        (sym (if_false _ _ _ can) ∙ e2) in
                    rw (← some_inj _ _ k) (protect_pages-regions rounds from blocked)
              ]
        ]
  ]

  pub unanchor-regions :
      (m : Cm bm kernel) (id : ℕ) (r : ℕ × Cm bm kernel)
      → unanchor bm kernel m id ≡ some r
      → r.1.regions ≡ m.regions
  unfolding unanchor
  unanchor-regions m id r e =
      let unanchored = bm.unanchor m.buffer_manager id in
      elim (Bool-cases (not (unanchored.0 == 0))) [
        | inl failed ↦ let k = rw (failed, unanchor) at e in rw (← some_inj _ _ k) refl
        | inr done ↦
            let e1 = rw (done, unanchor) at e in
            elim (Bool-cases (contains id m.regions)) [
              | inl is ↦ let k = rw (is) at e1 in rw (← some_inj _ _ k) refl
              | inr isnt ↦
                  let (b, _, k) = >>=-eq-some (bm.free unanchored.1 id) _ (rw (isnt) at e1) in
                  rw (← some_inj _ _ k) refl
            ]
      ]

  pub get_size-regions :
      (m : Cm bm kernel) (id out : ℕ) → (get_size bm kernel m id out).2.regions ≡ m.regions
  unfolding get_size
  get_size-regions m id out = ground arith

  pub anchor-regions : (m : Cm bm kernel) (id : ℕ) → (anchor bm kernel m id).1.regions ≡ m.regions
  unfolding anchor
  anchor-regions m id = refl

  pub advise-regions :
      (m : Cm bm kernel) (id : ℕ) (properties : Properties)
      → (advise bm kernel m id properties).1.regions ≡ m.regions
  unfolding advise
  advise-regions m id properties = refl
