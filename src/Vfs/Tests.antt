-- ===== src/Vfs/Tests.antt =====
-- Runs of the file system.
use dasim.Base.{
  ℕ, ◌+◌, ◌≤◌, ◌<◌, ◌≡◌, refl, true, ◌⊎◌, Option, none, some, List, [], ◌∷◌, ◌++◌, length, arith,
}
use dasim.Demo.PageIo.{Bytes}
use dasim.Library.Api.{damemory}
use dasim.Library.Tests.{answers, small, before}
use dasim.Vfs.{
  Code, ok, cantopen, ioerr_read, ioerr_write, DemoFile, max, demo_read, demo_write, demo_file_size,
  path_to_id, demo_full_pathname, OpenFlags, demo_open,
}
use dasim.Vfs.Files.{
  file_of, overwrite, slice, demo_write-File, demo_read-File, demo_read-demo_write,
  demo_write-overruns,
}
use dasim.Vfs.Names.{path_to_id-inj, path_to_id-ignores, demo_full_pathname-fits}

abbrev zeros : Bytes
zeros a = 0

abbrev file : DemoFile
file = record { id = 7; handle = record { addr = 4096; size = 64; segid = 1; apid = 2 } }

abbrev buffer : List ℕ
buffer = 10 ∷ 20 ∷ 30 ∷ []

abbrev written : Bytes
unfolding demo_write
written = (demo_write zeros file buffer 5).1

written_len : demo_file_size written file ≡ 8
unfolding demo_write demo_file_size
written_len = refl

written_back : demo_read written file 4 4 ≡ (ok, 0 ∷ 10 ∷ 20 ∷ 30 ∷ [])
unfolding demo_write demo_read
written_back = refl

too_far : demo_read written file 4 61 ≡ (ioerr_read, [])
unfolding demo_read
too_far = refl

demo_write-File_example :
    let r = demo_write zeros file buffer 5 in
    ((64 < 5 + 3) × (r.0 ≡ ioerr_write) × (r.1 ≡ zeros))
    ⊎ ((5 + 3 ≤ 64)
        × (r.0 ≡ ok)
        × ((file_of r.1 file).len ≡ max (demo_file_size zeros file) (5 + 3))
        × ((k : ℕ) → (file_of r.1 file).byte k ≡ overwrite (file_of zeros file).byte 5 buffer k)
        × ((k : ℕ) → (k < 4096) ⊎ (4096 + 16 + 64 ≤ k) → r.1 k ≡ 0))
unfolding demo_file_size
demo_write-File_example = demo_write-File zeros file buffer 5 (omega arith) (omega arith)

demo_read-File_example :
    ((64 < 4 + 4) × (demo_read written file 4 4 ≡ (ioerr_read, [])))
    ⊎ ((4 + 4 ≤ 64) × (demo_read written file 4 4 ≡ (ok, slice (file_of written file).byte 4 4)))
demo_read-File_example = demo_read-File written file 4 4

demo_read-demo_write_example : demo_read written file 3 5 ≡ (ok, buffer)
unfolding demo_write
demo_read-demo_write_example = demo_read-demo_write zeros file buffer 5 written refl

demo_write-overruns_example :
    let r = demo_write zeros file (9 ∷ []) 63 in (r.0 ≡ ok) × (r.1 (4096 + 64 + 15) ≡ 9)
demo_write-overruns_example = demo_write-overruns zeros file 9 (omega arith)

-- "db" and "db-wal", and a path of eight bytes with what SQLite appends.
abbrev db : List ℕ
db = b'd' ∷ b'b' ∷ []

abbrev eight : List ℕ
eight = b't' ∷ b'e' ∷ b's' ∷ b't' ∷ b'b' ∷ b'a' ∷ b's' ∷ b'e' ∷ []

abbrev journal : List ℕ
journal = b'-' ∷ b'j' ∷ []

db_id : path_to_id db ≡ 25188
unfolding path_to_id
db_id = refl

only_db : db ≡ db
only_db = path_to_id-inj db db (omega arith) (omega arith) (omega arith) (omega arith) refl

path_to_id-ignores_example : path_to_id (eight ++ []) ≡ path_to_id (eight ++ journal)
path_to_id-ignores_example = path_to_id-ignores eight [] journal refl

demo_full_pathname-fits_example :
    (length (demo_full_pathname eight 4) < 4)
    × ((rest : List ℕ) × (eight ≡ demo_full_pathname eight 4 ++ rest)
        × ((rest ≡ []) ⊎ (length (demo_full_pathname eight 4) + 1 ≡ 4)))
demo_full_pathname-fits_example = demo_full_pathname-fits eight 4 (omega arith)

-- The file system over the library and a manager with one page of RAM and two of swap.
abbrev create_only : OpenFlags
create_only = record { exclusive = true; create = true }

abbrev Opened : Type 0
Opened = Code × Option DemoFile × Bytes × (damemory answers small).State

abbrev first : Opened
unfolding demo_open answers
first = elim (demo_open (damemory answers small) before zeros create_only (some db)) [
  | none ↦ (cantopen, none, zeros, before)
  | some r ↦ r
]
