-- ===== src/Demo/History.antt =====
-- The life of a demo buffer manager: the calls of its public operations one after another, in any
-- order and with any answers of the system.
use dasim.Base.{ℕ, ◌<◌, ◌≡◌, ◌∙◌, sym, ap, [], Bool, true, some}
use dasim.Types.{Properties, AnchoredRegion, UnfixResult, MarkDirtyResult}
use dasim.Demo.Pte.{RegionPte}
use dasim.Demo.PageIo.{Os}
use dasim.Demo.State.{DemoBufferManager, construct, pte_at}
use dasim.Demo.State.Inv.{Inv, Holds, used_once}
use dasim.Demo.Paging.{unfix, mark_dirty}
use dasim.Demo.Paging.Frames.{unfix-Inv, mark_dirty-Inv}
use dasim.Demo.Regions.{allocate, free, anchor, unanchor, get_anchored_region}
use dasim.Demo.Regions.Free.{free-Inv}
use dasim.Demo.Regions.Lifetime.{
  construct-Inv, allocate-Inv, anchor-Inv, unanchor-Inv, get_anchored_region-Inv,
}
use dasim.Demo.Persist.{persist}
use dasim.Demo.Persist.Safety.{persist-Inv}

-- A call that returns, and the state that it leaves. `fix`, `advise` and `can_persist` leave it.
pub data Step (s : DemoBufferManager) : DemoBufferManager → Type 0 where
  allocates :
      (os : Os) (id size : ℕ) (properties : Properties) (addr_out code addr : ℕ)
      {s' : DemoBufferManager}
      → allocate os s id size properties addr_out ≡ some (code, addr, s')
      → Step s s'
  frees : (os : Os) (id : ℕ) {s' : DemoBufferManager} → free os s id ≡ some s' → Step s s'
  unfixes :
      (os : Os) (id off : ℕ) (write : Bool) (res : UnfixResult) {s' : DemoBufferManager}
      → unfix os s id off write ≡ some (res, s')
      → Step s s'
  marks :
      (id off : ℕ) (res : MarkDirtyResult) {s' : DemoBufferManager}
      → mark_dirty s id off ≡ some (res, s')
      → Step s s'
  anchors : (id : ℕ) {s' : DemoBufferManager} → (anchor s id).1 ≡ s' → Step s s'
  unanchors : (id : ℕ) {s' : DemoBufferManager} → (unanchor s id).1 ≡ s' → Step s s'
  looks_up :
      (os : Os) (id : ℕ) (out : AnchoredRegion) {s' : DemoBufferManager}
      → (get_anchored_region os s id out).2 ≡ s'
      → Step s s'
  persists :
      (os : Os) (id off size : ℕ) {s' : DemoBufferManager}
      → persist os s id off size ≡ some s'
      → Step s s'

pub data Reach (s : DemoBufferManager) : DemoBufferManager → Type 0 where
  here : Reach s s
  next : {t u : DemoBufferManager} → Reach s t → Step t u → Reach s u

pub Step-Inv : {nr : ℕ} (s s' : DemoBufferManager) → Inv nr [] s → Step s s' → Inv nr [] s'
Step-Inv s s' v (allocates os id size properties addr_out code addr e) =
    allocate-Inv os s id size properties addr_out (code, addr, s') v e
Step-Inv {nr} s s' v (frees os id e) = free-Inv nr os s id s' v e
Step-Inv {nr} s s' v (unfixes os id off write res e) = unfix-Inv nr os s id off write res s' v e
Step-Inv {nr} s s' v (marks id off res e) = mark_dirty-Inv nr s id off res s' v e
Step-Inv s s' v (anchors id e) = rw (← e) (anchor-Inv s id v)
Step-Inv s s' v (unanchors id e) = rw (← e) (unanchor-Inv s id v)
Step-Inv s s' v (looks_up os id out e) = rw (← e) (get_anchored_region-Inv os s id out v)
Step-Inv s s' v (persists os id off size e) = persist-Inv os s id off size s' v e

-- After every history of a new manager with `nr` pages of RAM the frame invariant holds: each page
-- below `nr` is either once in m_free_pages or once in m_used_pages; the page information of a
-- used page names a page table entry that is present and points back to it; and every present
-- entry points to a used page whose information names that entry.
pub Reach-Inv :
    (swapfd nr swap : ℕ) {s : DemoBufferManager} → Reach (construct swapfd nr swap) s → Inv nr [] s
Reach-Inv swapfd nr swap here = construct-Inv swapfd nr swap
Reach-Inv swapfd nr swap (next {t} {u} r st) = Step-Inv t u (Reach-Inv swapfd nr swap r) st

-- In every state that a new manager with `nr` pages of RAM can reach, two present page table
-- entries with one page number are the same entry, and the number is below `nr`.
pub frames_exclusive :
    (swapfd nr swap : ℕ) {s : DemoBufferManager} (id i id' i' : ℕ) (pte pte' : RegionPte)
    → Reach (construct swapfd nr swap) s
    → pte_at s.regions id i ≡ some pte
    → pte_at s.regions id' i' ≡ some pte'
    → pte.present ≡ true
    → pte'.present ≡ true
    → pte.nr ≡ pte'.nr
    → (id ≡ id') × (i ≡ i') × (pte.nr < nr)
frames_exclusive swapfd nr swap {s} id i id' i' pte pte' r e e' pr pr' same =
    let v : Inv nr [] s = Reach-Inv swapfd nr swap r in
    let h : Holds s pte.nr id i = v.backed id i pte e pr in
    let h' : Holds s pte'.nr id' i' = v.backed id' i' pte' e' pr' in
    (
      sym h.of_region ∙ ap (λ k. (s.page_infos k).region_id) same ∙ h'.of_region,
      sym h.at_off ∙ ap (λ k. (s.page_infos k).off) same ∙ h'.at_off,
      (used_once s v pte.nr h.in_use).1,
    )
