-- ===== src/Vfs.antt =====
-- The SQLite file system over damemory: demo/include/damemorydemovfs.h.
pub mod Words
pub mod Files
pub mod Names
pub mod Opening
mod Tests
use dasim.Base.{
  ℕ, zero, suc, ◌+◌, ◌-◌, ◌*◌, ◌/◌, ◌%◌, ◌==◌, Bool, true, false, not, ◌&&◌, ◌||◌, Option, none,
  some, List, [], ◌∷◌, length, ltb, if◌then◌else◌, ◌>>=◌,
}
use dasim.Types.{
  page_size, Properties, AccessPattern, Bandwidth, Granularity, AvgLatency, TailLatency,
  Persistency,
}
use dasim.Demo.PageIo.{Bytes}
use dasim.Demo.State.{update}
use dasim.Library.{Handle, Status, success, failure, damemory_handle_valid}
use dasim.Library.Api.{Damemory}

-- The result codes of SQLite that the file uses.
pub data Code : Type 0 where
  ok ioerr ioerr_close ioerr_read ioerr_write ioerr_fsync ioerr_delete cantopen notfound : Code

-- DBFILESIZE and MAXPATHNAME
abbrev pub dbfilesize : ℕ
dbfilesize = 0x10 * page_size

abbrev pub maxpathname : ℕ
maxpathname = 128

pub record DemoFile : Type 0 where
  pub id : ℕ
  pub handle : Handle

-- memcpy() from a word of `n` bytes and to one, with the lowest byte first.
unfoldable pub load : ℕ → Bytes → ℕ → ℕ
load zero mem addr = 0
load (suc n) mem addr = mem addr + 256 * load n mem (addr + 1)

unfoldable pub store : ℕ → Bytes → ℕ → ℕ → Bytes
store zero mem addr v = mem
store (suc n) mem addr v = store n (update mem addr (v % 256)) (addr + 1) (v / 256)

-- memcpy() from a buffer and to one.
unfoldable pub read_bytes : Bytes → ℕ → ℕ → List ℕ
read_bytes mem addr zero = []
read_bytes mem addr (suc n) = mem addr ∷ read_bytes mem (addr + 1) n

unfoldable pub write_bytes : Bytes → ℕ → List ℕ → Bytes
write_bytes mem addr [] = mem
write_bytes mem addr (x ∷ xs) = write_bytes (update mem addr x) (addr + 1) xs

-- SQLite passes no negative amounts and offsets.
unfoldable pub test_access_valid : DemoFile → ℕ → ℕ → Bool
test_access_valid p amount offset =
    not (ltb p.handle.size amount || ltb (p.handle.size - amount) offset)

unfoldable pub get_size : Bytes → Handle → ℕ
unfolding load
get_size mem handle = load 8 mem handle.addr

unfoldable pub set_size : Bytes → Handle → ℕ → Bytes
unfolding store
set_size mem handle size = store 8 mem handle.addr size

unfoldable pub get_filecontent_addr : Handle → ℕ → ℕ
get_filecontent_addr handle offset = handle.addr + 8 + offset + 8

-- The code, and what is copied to the buffer.
unfoldable pub demo_read : Bytes → DemoFile → ℕ → ℕ → Code × List ℕ
unfolding test_access_valid read_bytes get_filecontent_addr
demo_read mem p amount offset =
    if not (test_access_valid p amount offset)
    then (ioerr_read, [])
    else (ok, read_bytes mem (get_filecontent_addr p.handle offset) amount)

abbrev pub max : ℕ → ℕ → ℕ
max a b = if ltb b a then a else b

unfoldable pub demo_write : Bytes → DemoFile → List ℕ → ℕ → Code × Bytes
unfolding test_access_valid get_size set_size write_bytes get_filecontent_addr
demo_write mem p buffer offset =
    if not (test_access_valid p (length buffer) offset)
    then (ioerr_write, mem)
    else let size = get_size mem p.handle in
      let written = write_bytes mem (get_filecontent_addr p.handle offset) buffer in
      (ok, set_size written p.handle (max size (length buffer + offset)))

unfoldable pub demo_file_size : Bytes → DemoFile → ℕ
unfolding get_size
demo_file_size mem p = get_size mem p.handle

-- xTruncate(), the locks, and the functions that return a constant.
unfoldable pub demo_truncate : Bytes → DemoFile → ℕ → Code × Bytes
demo_truncate mem p size = (ok, mem)

unfoldable pub demo_check_reserved_lock : DemoFile → Code × ℕ
demo_check_reserved_lock p = (ok, 0)

-- memccpy(&id, zPath, 0, 8) over zeros: the path up to its end, or its first 8 bytes.
unfoldable pub prefix_word : ℕ → List ℕ → ℕ
prefix_word zero path = 0
prefix_word (suc n) [] = 0
prefix_word (suc n) (x ∷ path) = x + 256 * prefix_word n path

unfoldable pub path_to_id : List ℕ → ℕ
unfolding prefix_word
path_to_id path = prefix_word 8 path

-- memset(), memccpy() and the final zero: the name, cut off so that it ends in the buffer.
unfoldable pub demo_full_pathname : List ℕ → ℕ → List ℕ
demo_full_pathname [] out = []
demo_full_pathname (x ∷ path) zero = []
demo_full_pathname (x ∷ path) (suc zero) = []
demo_full_pathname (x ∷ path) (suc (suc out)) = x ∷ demo_full_pathname path (suc out)

-- The flags SQLITE_OPEN_EXCLUSIVE and SQLITE_OPEN_CREATE.
pub record OpenFlags : Type 0 where
  pub exclusive : Bool
  pub create : Bool

abbrev pub file_properties : Properties
file_properties = record {
  access_pattern = AccessPattern.random;
  bandwidth = Bandwidth.verylow;
  granularity = Granularity.small;
  avg_latency = AvgLatency.verylow;
  tail_latency = TailLatency.verylow;
  persistency = Persistency.persistent;
}

abbrev pub fails : Status → Bool
fails success = false
fails failure = true

module _ (api : Damemory) where
  unfoldable pub demo_close : api.State → DemoFile → Option (Code × api.State)
  demo_close s p = api.persist s p.handle 0 p.handle.size >>= λ r.
      if fails r.0
      then some (ioerr_close, r.1)
      else (api.unmap r.1 p.handle >>= λ u. some (if fails u.0 then ioerr_close else ok, u.1))

  unfoldable pub demo_sync : api.State → DemoFile → Option (Code × api.State)
  demo_sync s p = api.persist s p.handle 0 p.handle.size >>= λ r.
      some (if fails r.0 then ioerr_fsync else ok, r.1)

  -- The branch of `demoOpen` that allocates the region.
  unfoldable pub create_region : api.State → ℕ → Option (Option (Handle × Bool) × api.State)
  create_region s id = api.alloc s id dbfilesize file_properties >>= λ r.
      some (if damemory_handle_valid r.0 then some (r.0, true) else none, r.1)

  -- The first part of `demoOpen`: the region with whether it is new, or nothing where
  -- SQLITE_CANTOPEN is returned.
  unfoldable pub obtain : api.State → OpenFlags → ℕ → Option (Option (Handle × Bool) × api.State)
  unfolding create_region
  obtain s flags id =
      if flags.exclusive
      then create_region s id
      else (api.map s id >>= λ r.
          if damemory_handle_valid r.0
          then some (some (r.0, false), r.1)
          else if flags.create
          then create_region r.1 id
          else some (none, r.1))

  -- `none` for the path is a null pointer, which SQLite passes for a temporary file, and `none` for
  -- the file is a result other than SQLITE_OK.
  unfoldable pub demo_open :
      api.State
      → Bytes
      → OpenFlags
      → Option (List ℕ)
      → Option (Code × Option DemoFile × Bytes × api.State)
  unfolding obtain path_to_id set_size
  demo_open s mem flags none = some (ioerr, none, mem, s)
  demo_open s mem flags (some path) =
      let id = path_to_id path in
      obtain s flags id >>= λ got. elim got.0 [
        | none ↦ some (cantopen, none, mem, got.1)
        | some (handle, created) ↦ api.anchor got.1 id >>= λ r.
            if fails r.0
            then (api.unmap r.1 handle >>= λ u. some (cantopen, none, mem, u.1))
            else some (
              ok,
              some (record { id = id; handle = handle }),
              if created then set_size mem handle 0 else mem,
              r.1,
            )
      ]

  unfoldable pub demo_delete : api.State → List ℕ → Option (Code × api.State)
  unfolding path_to_id
  demo_delete s path =
      api.unanchor s (path_to_id path) >>= λ r. some (if fails r.0 then ioerr_delete else ok, r.1)

  -- Whether the file exists, whatever the flags ask.
  unfoldable pub demo_access : api.State → List ℕ → Option (Bool × api.State)
  unfolding path_to_id
  demo_access s path = api.get_size s (path_to_id path) >>= λ r. some (not (r.0 == 0), r.1)
