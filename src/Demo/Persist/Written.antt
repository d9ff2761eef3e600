-- ===== src/Demo/Persist/Written.antt =====
-- Which pages `persist` writes to the file of a region.
mod Visits
pub use Visits.*
use dasim.Base.{
  ℕ, zero, suc, ◌+◌, ◌-◌, ◌*◌, ◌/◌, ◌≤◌, ◌<◌, ◌≡◌, ◌≢◌, ◌∙◌, refl, sym, ap, ==_refl, ne→==, true,
  false, not, some, some_inj, [], lookup, ◌==◌, >>=-eq-some, arith, inl, inr, ◌⊎◌, Bool-cases,
  Option-cases, ==→eq, ==→ne,
}
use dasim.Types.{page_size}
use dasim.Demo.Pte.{RegionPte, Region, get_pte, get_page_nr}
use dasim.Demo.PageIo.{Os, Bytes, blit}
use dasim.Demo.PageIo.Transfers.{WritesMove, write_loop_page}
use dasim.Demo.State.{DemoBufferManager, update, pte_at}
use dasim.Demo.State.Inv.{Inv, Holds}
use dasim.Demo.Paging.{swap_out_page_data}
use dasim.Demo.Paging.Kept.{blit_at}
use dasim.Demo.Persist.{persist_page, persist_pages, persist}

-- No two present pages of a region have one frame.
abbrev pub Exclusive : Region → Type 0
Exclusive region =
    (i j : ℕ) (pte pte' : RegionPte)
    → get_pte region i ≡ some pte
    → get_pte region j ≡ some pte'
    → pte.present ≡ true
    → pte'.present ≡ true
    → pte.nr ≡ pte'.nr
    → i ≡ j

module _ (os : Os) (moves : WritesMove os) (region : Region) where
  rounds-Persisted :
      (rounds i j : ℕ) (pte : RegionPte) (shm : Bytes) (s s' : DemoBufferManager)
      → j < i
      → Persisted region j pte shm s
      → persist_pages os region rounds i s ≡ some s'
      → Persisted region j pte shm s'
  unfolding persist_pages
  rounds-Persisted zero i j pte shm s s' lt done e = rw (← some_inj _ _ e) done
  rounds-Persisted (suc rounds) i j pte shm s s' lt done e =
      elim (Option-cases (persist_page os region i s)) [
        | inl n ↦ absurd (ground arith)
        | inr (s1, e1) ↦
            rounds-Persisted rounds (i + 1) j pte shm s1 s' (omega (arith, lt))
              (visit-Persisted region i j pte shm s s1 (λ eq. omega (arith, eq, lt))
                (persist_page-Visits os region i s s1 moves e1) done)
              (rw (e1, persist_pages) at e)
      ]

  rounds-write :
      (rounds i j : ℕ) (pte : RegionPte) (s s' : DemoBufferManager)
      → Exclusive region
      → i ≤ j
      → j < i + rounds
      → get_pte region j ≡ some pte
      → pte.present ≡ true
      → (s.page_infos pte.nr).dirty ≡ true
      → persist_pages os region rounds i s ≡ some s'
      → Persisted region j pte s.shm s'
  unfolding persist_pages
  rounds-write zero i j pte s s' ex lo hi entry present dirty e = absurd (omega (arith, lo, hi))
  rounds-write (suc rounds) i j pte s s' ex lo hi entry present dirty e =
      elim (Option-cases (persist_page os region i s)) [
        | inl n ↦ absurd (ground arith)
        | inr (s1, e1) ↦
            let visit = persist_page-Visits os region i s s1 moves e1 in
            let rest = rw (e1, persist_pages) at e in
            elim (Bool-cases (i == j)) [
              | inl now ↦
                  let at : i ≡ j = ==→eq i j now in
                  rounds-Persisted rounds (i + 1) j pte s.shm s1 s' (omega (arith, at))
                    (visit-writes region j pte s s1 entry present dirty (rw (← at) visit)) rest
              | inr later ↦
                  let ne : i ≢ j = ==→ne i j later in
                  let (shm, still) =
                    visit-apart region i j pte s s1 visit
                      (λ pr same. ne (ex i j visit.pte pte visit.entry entry pr present same)) in
                  rw (← shm) (
                    rounds-write rounds (i + 1) j pte s1 s' ex (omega (arith, lo, ne))
                      (omega (arith, hi)) entry present (still ∙ dirty) rest)
            ]
      ]

-- `persist` writes back every dirty page from its offset up to page `size / PAGE_SIZE` of the
-- region: the file of the region has the bytes of the page afterwards, and the page is clean. This
-- takes the frame invariant, pwrite() calls that succeed and move some bytes, and that the call
-- returns.
pub persist-writes :
    {nr : ℕ} (os : Os) (s : DemoBufferManager) (id off n j : ℕ) (region : Region) (pte : RegionPte)
    (s' : DemoBufferManager)
    → Inv nr [] s
    → WritesMove os
    → lookup id s.regions ≡ some region
    → off / page_size ≤ j
    → j < n / page_size
    → get_pte region j ≡ some pte
    → pte.present ≡ true
    → (s.page_infos pte.nr).dirty ≡ true
    → persist os s id off n ≡ some s'
    → ((k : ℕ)
        → k < page_size
        → s'.files region.swapfd (j * page_size + k) ≡ s.shm (pte.nr * page_size + k))
      × ((s'.page_infos pte.nr).dirty ≡ false)
unfolding persist pte_at
persist-writes {nr} os s id off n j region pte s' v moves has_region lo hi entry present dirty e =
    let exclusive : Exclusive region = λ i i' p p' f f' pr pr' same.
      let h : Holds s p.nr id i = v.backed id i p (rw has_region f) pr in
      let h' : Holds s p'.nr id i' = v.backed id i' p' (rw has_region f') pr' in
      sym h.at_off ∙ ap (λ q. (s.page_infos q).off) same ∙ h'.at_off in
    let done =
      rounds-write os moves region (n / page_size - off / page_size) (off / page_size) j pte s s'
        exclusive lo (omega (arith, lo, hi)) entry present dirty (rw has_region at e) in
    (done.bytes, done.clean)

-- `persist` writes nothing at all if its range starts at or beyond page `size / PAGE_SIZE`, as the
-- loop compares the page of the region with the number of pages of the range: the call succeeds,
-- and leaves every page as dirty as it was.
pub persist-skips :
    (os : Os) (s : DemoBufferManager) (id off n : ℕ) (region : Region)
    → lookup id s.regions ≡ some region
    → n / page_size ≤ off / page_size
    → persist os s id off n ≡ some s
unfolding persist persist_pages
persist-skips os s id off n region has_region short =
    let none_left : n / page_size - off / page_size ≡ 0 = omega (arith, short) in
    rw (has_region, none_left, persist, persist_pages)
