-- ===== src/Demo/State.antt =====
-- The state of the class `demo_buffer_manager`, its constructor, and access to page table entries.
-- `vector::reserve` leaves m_page_infos without elements: the model reads the reserved storage.
pub mod Slots
pub mod Inv
use dasim.Base.{
  ℕ, zero, suc, ◌-◌, ◌==◌, Bool, Option, none, some, List, [], ◌∷◌, Map, lookup, insert, set, range,
  if◌then◌else◌, add64, sub64, ◌>>=◌,
}
use dasim.Types.{page_size}
use dasim.Demo.Pte.{RegionPte, Region, get_pte}
use dasim.Demo.PageIo.{Bytes}

-- `used_pages_it` points into m_used_pages; it stands for the number that it points at, whose
-- node is the only one with that number.
pub record PageInfo : Type 0 where
  pub region_id : ℕ
  pub off : ℕ
  pub used_pages_it : ℕ
  pub dirty : Bool

-- The back of the deque m_free_swap_entries is the head of `free_swap_entries`. `shm` is the RAM
-- file as it is mapped at m_shm, and `files` has the contents of the other files by descriptor.
pub record DemoBufferManager : Type 0 where
  pub swapfd : ℕ
  pub nr_available_pages : ℕ
  pub regions : Map Region
  pub page_infos : ℕ → PageInfo
  pub free_pages : List ℕ
  pub used_pages : List ℕ
  pub free_swap_entries : List ℕ
  pub shm : Bytes
  pub tmp_page : Bytes
  pub files : ℕ → Bytes

-- A cell of an array or of a table of files.
abbrev pub update {ℓ} : {A : Type ℓ} → (ℕ → A) → ℕ → A → ℕ → A
update f k v j = if k == j then v else f j

-- n - 1, ..., 0
abbrev pub countdown : ℕ → List ℕ
countdown zero = []
countdown (suc n) = n ∷ countdown n

abbrev pub zeros : Bytes
zeros k = 0

-- The constructor, where no system call fails: both files are new, and hold zeros.
unfoldable pub construct : ℕ → ℕ → ℕ → DemoBufferManager
construct swapfd nr_pages_ram nr_pages_swap = record {
  swapfd = swapfd;
  nr_available_pages = sub64 (add64 nr_pages_ram nr_pages_swap) 1;
  regions = [];
  page_infos = λ _. record { region_id = 0; off = 0; used_pages_it = 0; dirty = Bool.false };
  free_pages = range 0 nr_pages_ram;
  used_pages = [];
  free_swap_entries = countdown nr_pages_swap;
  shm = zeros;
  tmp_page = zeros;
  files = λ _. zeros;
}

unfoldable pub is_anon : DemoBufferManager → Region → Bool
is_anon s region = region.swapfd == s.swapfd

-- m_regions.at(id).get_pte(poff); `none` is an exception or an access out of bounds.
unfoldable pub pte_at : Map Region → ℕ → ℕ → Option RegionPte
unfolding get_pte
pte_at regions id poff = lookup id regions >>= λ region. get_pte region poff

-- A write through the reference that `get_pte` returns.
unfoldable pub set_pte : Map Region → ℕ → ℕ → RegionPte → Map Region
set_pte regions id poff pte = elim (lookup id regions) [
  | none ↦ regions
  | some region ↦ insert id (record region { ptes = set region.ptes poff pte }) regions
]
