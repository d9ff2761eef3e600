-- ===== src/Demo/PageIo.antt =====
-- The transfers of whole pages between memory and files: the loops of `swap_in_page`,
-- `swap_out_page_data` and `init_file` in demo_buffer_manager.cc.
pub mod Transfers
use dasim.Base.{
  ℕ, ◌≡◌, refl, inl, inr, ◌⊎◌, zero, suc, ◌+◌, ◌-◌, ◌*◌, ◌&&◌, Bool, Option, none, some, ltb, leb,
  if◌then◌else◌, ◌==◌, add64, sub64,
}
use dasim.Types.{page_size}

-- Memory, or the contents of a file: the byte at each offset.
abbrev pub Bytes : Type 0
Bytes = ℕ → ℕ

-- `n` bytes of `src` from offset `from` on, written over `dst` from offset `to` on.
abbrev pub blit : Bytes → ℕ → Bytes → ℕ → ℕ → Bytes
blit dst to src from n = λ k. if leb to k && ltb k (to + n) then src (from + (k - to)) else dst k

-- What pread() or pwrite() returns: -1, or the number of bytes moved.
pub data Transfer : Type 0 where
  failed : Transfer
  moved : ℕ → Transfer

-- The answers of pread(fd, _, n, off) and pwrite(fd, _, n, off), and those of the other system
-- calls: open() with O_CREAT | O_EXCL and without, of the file kept for a region, ftruncate(),
-- fstat() and the mmap() that reserves memory, where 0 stands for MAP_FAILED.
pub data OpenResult : Type 0 where
  opened : ℕ → OpenResult
  open_failed : ℕ → OpenResult

pub OpenResult-cases :
    (r : OpenResult) → ((e : ℕ) × (r ≡ open_failed e)) ⊎ ((fd : ℕ) × (r ≡ opened fd))
OpenResult-cases (open_failed e) = inl (e, refl)
OpenResult-cases (opened fd) = inr (fd, refl)

pub record Os : Type 0 where
  pub pread : ℕ → ℕ → ℕ → Transfer
  pub pwrite : ℕ → ℕ → ℕ → Transfer
  pub create_file : ℕ → OpenResult
  pub open_file : ℕ → Option ℕ
  pub truncate_fails : ℕ → ℕ → Bool
  pub file_size : ℕ → Option ℕ
  pub reserve : ℕ → ℕ

-- for (i = start; i < PAGE_SIZE;) { nwritten = pwrite(fd, mem + from + i, PAGE_SIZE - i, to + i);
-- i += nwritten; }, on fuel; -1 is added with wrap-around.
unfoldable pub write_loop : Os → ℕ → Bytes → ℕ → ℕ → ℕ → ℕ → Bytes → Option Bytes
write_loop os zero mem from fd to i file = none
write_loop os (suc fuel) mem from fd to i file =
    let round = elim (os.pwrite fd (to + i) (page_size - i)) as (λ _. Option Bytes) [
      | failed ↦ write_loop os fuel mem from fd to (sub64 i 1) file
      | moved n ↦
          write_loop os fuel mem from fd to (add64 i n) (blit file (to + i) mem (from + i) n)
    ] in
    if ltb i page_size then round else some file

-- The loop of `swap_in_page`. Each read goes to the start of the temporary page.
unfoldable pub read_loop : Os → ℕ → ℕ → Bytes → ℕ → ℕ → Bytes → Option Bytes
read_loop os zero fd file from i tmp = none
read_loop os (suc fuel) fd file from i tmp =
    let round = elim (os.pread fd (from + i) (page_size - i)) as (λ _. Option Bytes) [
      | failed ↦ some tmp
      | moved n ↦
          let next = read_loop os fuel fd file from (i + n) (blit tmp 0 file (from + i) n) in
          if n == 0 then some tmp else next
    ] in
    if ltb i page_size then round else some tmp

-- Every round that succeeds moves a byte.
abbrev pub page_fuel : ℕ
page_fuel = page_size + 1

-- `init_file`: each page of the file is filled with 'A'.
unfoldable pub init_pages : Os → ℕ → ℕ → ℕ → Bytes → Option Bytes
init_pages os zero i fd file = some file
init_pages os (suc rounds) i fd file =
    elim (write_loop os page_fuel (λ _. b'A') 0 fd (i * page_size) 0 file) [
      | none ↦ none
      | some file' ↦ init_pages os rounds (i + 1) fd file'
    ]
