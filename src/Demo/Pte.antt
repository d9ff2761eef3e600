-- ===== src/Demo/Pte.antt =====
-- The classes `region_pte` and `region` of demo_buffer_manager.cc.
use dasim.Base.{
  ℕ, ◌+◌, ◌/◌, Bool, true, false, Option, none, some, List, [], ◌∷◌, if◌then◌else◌, length,
  get_elem?, replicate,
}
use dasim.Types.{page_size}

-- `region_pte`. The union of m_page_nr and m_swap_ix is the field `nr`.
pub record RegionPte : Type 0 where
  pub nr : ℕ
  pub present : Bool
  pub swap : Bool

-- A default-initialised entry: neither present nor swapped.
abbrev pub empty_pte : RegionPte
empty_pte = record { nr = 0; present = false; swap = false }

unfoldable pub make_present : RegionPte → ℕ → RegionPte
make_present pte page_nr = record { nr = page_nr; present = true; swap = false }

unfoldable pub make_swap : RegionPte → ℕ → RegionPte
make_swap pte swap_ix = record { nr = swap_ix; present = false; swap = true }

unfoldable pub is_present : RegionPte → Bool
is_present pte = pte.present

unfoldable pub is_swapped : RegionPte → Bool
is_swapped pte = pte.swap

-- `none` is DASIM_FATAL, which aborts the process.
unfoldable pub get_page_nr : RegionPte → Option ℕ
get_page_nr pte = if pte.present then some pte.nr else none

unfoldable pub get_swap_ix : RegionPte → Option ℕ
get_swap_ix pte = if pte.swap then some pte.nr else none

pub record Region : Type 0 where
  pub addr : ℕ
  pub size : ℕ
  pub ptes : List RegionPte
  pub swapfd : ℕ
  pub anchored : Bool

-- for (i = 0; i < m_ptes.size(); i++) m_ptes[i].make_swap(i)
unfoldable pub make_swap_all : ℕ → List RegionPte → List RegionPte
make_swap_all i [] = []
make_swap_all i (pte ∷ ptes) = make_swap pte i ∷ make_swap_all (i + 1) ptes

-- The constructor `region::region`.
unfoldable pub new_region : ℕ → ℕ → ℕ → Bool → Bool → Region
unfolding make_swap_all
new_region addr size swapfd persistent anchored =
    let ptes = replicate (size / page_size) empty_pte in
    record {
      addr = addr;
      size = size;
      ptes = if persistent then make_swap_all 0 ptes else ptes;
      swapfd = swapfd;
      anchored = anchored;
    }

unfoldable pub get_nr_pages : Region → ℕ
get_nr_pages region = length region.ptes

-- `m_ptes[poff]`; `none` is an access out of bounds.
unfoldable pub get_pte : Region → ℕ → Option RegionPte
get_pte region poff = get_elem? region.ptes poff
