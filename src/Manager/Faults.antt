-- ===== src/Manager/Faults.antt =====
-- `handle_userfault` of client_manager.cc.
use dasim.Base.{
  ℕ, Bool, true, false, not, ◌&&◌, ◌||◌, Option, none, some, lookup, floor_entry, if◌then◌else◌,
  sub64, ◌>>=◌,
}
use dasim.Manager.Interface.{BufferManager}
use dasim.Manager.State.{
  Kernel, CmRegion, block_pfs, uffd_writeprotect, uffd_continue, uffd_wake, emit,
  register_userfaultfd,
}
use dasim.Manager.Ops.{Cm}

-- A message of userfaultfd. Of the flags of a page fault: UFFD_PAGEFAULT_FLAG_WP, _MINOR and
-- _WRITE.
pub record UffdMsg : Type 0 where
  pub is_pagefault : Bool
  pub address : ℕ
  pub flag_wp : Bool
  pub flag_minor : Bool
  pub flag_write : Bool

module _ (bm : BufferManager) (kernel : Kernel) where
  -- The branch `major || minor`, with the range to wake. Errors are only logged.
  unfoldable pub resolve_missing :
      Cm bm kernel → ℕ → ℕ → Bool → Bool → Option (ℕ × ℕ × Cm bm kernel)
  unfolding register_userfaultfd
  resolve_missing s id off minor write = bm.unfix s.buffer_manager id off write >>= λ r.
      let result = r.0 in
      let s1 : Cm bm kernel = record s { buffer_manager = r.1 } in
      let s2 =
        if result.mapping_changed
        then (register_userfaultfd kernel s1 result.from result.size).1
        else s1 in
      let s3 =
        if result.writeprotect
        then emit s2 (uffd_writeprotect result.from result.size true)
        else s2 in
      let s4 =
        if not result.mapping_changed && minor
        then emit s3 (uffd_continue result.from result.size)
        else s3 in
      some (result.from, result.size, s4)

  -- The branch for a write-protection fault.
  unfoldable pub resolve_protected : Cm bm kernel → ℕ → ℕ → Option (ℕ × ℕ × Cm bm kernel)
  resolve_protected s id off = bm.mark_dirty s.buffer_manager id off >>= λ r.
      let result = r.0 in
      let s1 : Cm bm kernel = record s { buffer_manager = r.1 } in
      let s2 =
        if result.writeunprotect
        then emit s1 (uffd_writeprotect result.from result.size false)
        else s1 in
      some (result.from, result.size, s2)

  -- The faults that a message stands for. The last branch, with nothing to wake, is the "BUG".
  unfoldable pub resolve : Cm bm kernel → ℕ → ℕ → UffdMsg → Option (ℕ × ℕ × Cm bm kernel)
  unfolding resolve_missing resolve_protected
  resolve s id off msg =
      let major = not (msg.flag_wp || msg.flag_minor) in
      let write = msg.flag_wp || msg.flag_write in
      if major || msg.flag_minor
      then resolve_missing s id off msg.flag_minor write
      else if write
      then resolve_protected s id off
      else some (0, 0, s)

  -- The region that `handle_userfault` takes the address to lie in.
  unfoldable pub find_region : Cm bm kernel → ℕ → Option (ℕ × CmRegion)
  find_region s addr = floor_entry addr s.region_map >>= λ entry.
      lookup entry.1 s.regions >>= λ region. some (entry.1, region)

  -- With a region: page faults in its segment are blocked while the fault is resolved.
  unfoldable pub resolve_in : Cm bm kernel → ℕ → CmRegion → UffdMsg → Option (Cm bm kernel)
  unfolding resolve
  resolve_in s id region msg =
      resolve (emit s (block_pfs region.segid true)) id (sub64 msg.address region.addr) msg >>= λ r.
      some (emit (emit r.2 (block_pfs region.segid false)) (uffd_wake r.0 r.1))

  -- `none` is a read() that fails or is short.
  unfoldable pub handle_userfault : Cm bm kernel → Option UffdMsg → Option (Cm bm kernel)
  unfolding find_region resolve_in
  handle_userfault s none = some s
  handle_userfault s (some msg) =
      if not msg.is_pagefault then some s else elim (find_region s msg.address) [
        | none ↦ some (emit s (uffd_wake msg.address 0x1000))
        | some (id, region) ↦ resolve_in s id region msg
      ]
