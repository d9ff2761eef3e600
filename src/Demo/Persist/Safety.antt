-- ===== src/Demo/Persist/Safety.antt =====
-- `persist` and the frame invariant.
use dasim.Base.{
  ℕ, zero, suc, ◌+◌, ◌-◌, ◌/◌, ◌≡◌, ◌∙◌, sym, false, not, some, some_inj, if_true, if_false, [],
  lookup, >>=-eq-some, arith, inl, inr, Bool-cases, Option-cases,
}
use dasim.Types.{page_size}
use dasim.Demo.Pte.{Region, get_pte, is_present, get_page_nr}
use dasim.Demo.PageIo.{Os}
use dasim.Demo.State.{DemoBufferManager}
use dasim.Demo.State.Inv.{Inv, with_dirty-Inv}
use dasim.Demo.Paging.{swap_out_page_data}
use dasim.Demo.Paging.Frames.{swap_out_page_data-eq}
use dasim.Demo.Persist.{persist_page, persist_pages, persist}

persist_page-Inv :
    {nr : ℕ} (os : Os) (region : Region) (i : ℕ) (s s' : DemoBufferManager)
    → Inv nr [] s
    → persist_page os region i s ≡ some s'
    → Inv nr [] s'
unfolding persist_page get_page_nr
persist_page-Inv os region i s s' v e =
    let (pte, _, e1) = >>=-eq-some (get_pte region i) _ e in
    elim (Bool-cases (not (is_present pte))) [
      | inl absent ↦ rw (← some_inj _ _ (sym (if_true _ _ _ absent) ∙ e1)) v
      | inr present ↦
          let (p, _, e2) = >>=-eq-some (get_page_nr pte) _ (sym (if_false _ _ _ present) ∙ e1) in
          elim (Bool-cases (not (s.page_infos p).dirty)) [
            | inl clean ↦ rw (← some_inj _ _ (sym (if_true _ _ _ clean) ∙ e2)) v
            | inr dirty ↦
                let (s1, w, k) =
                  >>=-eq-some (swap_out_page_data os s p region.swapfd i) _
                    (sym (if_false _ _ _ dirty) ∙ e2) in
                let v1 : Inv _ [] s1 = rw (swap_out_page_data-eq os s p region.swapfd i s1 w) v in
                rw (← some_inj _ _ k) (with_dirty-Inv s1 p false v1)
          ]
    ]

persist_pages-Inv :
    {nr : ℕ} (os : Os) (region : Region) (rounds i : ℕ) (s s' : DemoBufferManager)
    → Inv nr [] s
    → persist_pages os region rounds i s ≡ some s'
    → Inv nr [] s'
unfolding persist_pages
persist_pages-Inv os region zero i s s' v e = rw (← some_inj _ _ e) v
persist_pages-Inv os region (suc rounds) i s s' v e =
    elim (Option-cases (persist_page os region i s)) [
      | inl n ↦ absurd (ground arith)
      | inr (s1, e1) ↦
          persist_pages-Inv os region rounds (i + 1) s1 s' (persist_page-Inv os region i s s1 v e1)
            (rw (e1, persist_pages) at e)
    ]

-- `persist` keeps the frame invariant.
pub persist-Inv :
    {nr : ℕ} (os : Os) (s : DemoBufferManager) (id off size : ℕ) (s' : DemoBufferManager)
    → Inv nr [] s
    → persist os s id off size ≡ some s'
    → Inv nr [] s'
unfolding persist
persist-Inv os s id off size s' v e =
    let (region, _, e1) = >>=-eq-some (lookup id s.regions) _ e in
    persist_pages-Inv os region (size / page_size - off / page_size) (off / page_size) s s' v e1
