-- ===== src/Demo/Backing.antt =====
-- What clients see of a region, wherever its pages are at the moment, and who owns which page of
-- which file of the demo buffer manager.
pub mod Places
pub mod SwapIn
pub mod PageOut
pub mod TakeFrame
pub mod MapPage
pub mod Fault
pub mod Transparent
pub mod Use
pub mod Grown
pub mod WrittenBack
pub mod Freed
pub mod Gone
pub mod NewRegion
pub mod Shown
pub mod Memory
pub mod Refinement
pub mod Forgotten
use dasim.Base.{
  ℕ, ◌+◌, ◌*◌, ◌≤◌, ◌<◌, ◌≡◌, ◌≢◌, ◌⊎◌, Bool, true, false, Option, some, count, Map, lookup,
  if◌then◌else◌, ◌>>=◌,
}
use dasim.Types.{page_size}
use dasim.Demo.Pte.{RegionPte, Region}
use dasim.Demo.State.{DemoBufferManager, pte_at}

-- The file that backs a region.
unfoldable pub fd_of : Map Region → ℕ → Option ℕ
fd_of regions id = lookup id regions >>= λ region. some region.swapfd

-- Byte `k` of a page: in RAM, in the file that backs its region, or not yet there.
unfoldable pub content : DemoBufferManager → ℕ → RegionPte → ℕ → ℕ
content s fd pte k =
    if pte.present
    then s.shm (pte.nr * page_size + k)
    else if pte.swap
    then s.files fd (pte.nr * page_size + k)
    else b'a'

-- Byte `k` of page `i` of a region; `none` if there is no such page.
unfoldable pub view : DemoBufferManager → ℕ → ℕ → ℕ → Option ℕ
unfolding content fd_of pte_at
view s id i k =
    pte_at s.regions id i >>= λ pte. fd_of s.regions id >>= λ fd. some (content s fd pte k)

-- A page of a region: its entry and the file of its region.
pub record PageAt (regions : Map Region) (id i : ℕ) (pte : RegionPte) (fd : ℕ) : Type 0 where
  pub entry : pte_at regions id i ≡ some pte
  pub backed_by : fd_of regions id ≡ some fd

-- Page `n` of file `fd` belongs to page `i` of a region: it is swapped out to there, or the region
-- is persistent and the page has its place there.
pub record Owns (regions : Map Region) (swapfd id i fd n : ℕ) : Type 0 where
  pub pte : RegionPte
  pub page : PageAt regions id i pte fd
  pub place :
      ((fd ≡ swapfd) × (pte.present ≡ false) × (pte.swap ≡ true) × (pte.nr ≡ n))
      ⊎ ((fd ≢ swapfd) × (i ≡ n))

-- For the pages in `Among`: no two own the same page of a file, what they own of the swap file is
-- not free, a persistent page that is swapped out is at its place, and one that is in RAM and
-- clean has its bytes at its place.
pub record Backing (Among : ℕ → ℕ → Type 0) (s : DemoBufferManager) : Type 0 where
  pub free_once : (n : ℕ) → count n s.free_swap_entries ≤ 1
  pub apart :
      (id i id' i' fd n : ℕ)
      → Among id i
      → Among id' i'
      → Owns s.regions s.swapfd id i fd n
      → Owns s.regions s.swapfd id' i' fd n
      → (id ≡ id') × (i ≡ i')
  pub taken :
      (id i n : ℕ)
      → Among id i
      → Owns s.regions s.swapfd id i s.swapfd n
      → count n s.free_swap_entries ≡ 0
  pub home :
      (id i : ℕ) (pte : RegionPte) (fd : ℕ)
      → Among id i
      → PageAt s.regions id i pte fd
      → fd ≢ s.swapfd
      → pte.present ≡ false
      → pte.swap ≡ true
      → pte.nr ≡ i
  pub clean :
      (id i : ℕ) (pte : RegionPte) (fd : ℕ)
      → Among id i
      → PageAt s.regions id i pte fd
      → fd ≢ s.swapfd
      → pte.present ≡ true
      → (s.page_infos pte.nr).dirty ≡ false
      → (k : ℕ) → k < page_size
      → s.files fd (i * page_size + k) ≡ s.shm (pte.nr * page_size + k)

abbrev pub Everywhere : ℕ → ℕ → Type 0
Everywhere id i = Unit

-- All pages but page `poff` of region `id`, if that is anonymous.
abbrev pub Elsewhere : ℕ → ℕ → ℕ → ℕ → ℕ → ℕ → Type 0
Elsewhere swapfd id poff fd id' i' = ((id ≢ id') ⊎ (poff ≢ i')) ⊎ (fd ≢ swapfd)
