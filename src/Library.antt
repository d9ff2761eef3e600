-- ===== src/Library.antt =====
-- The client library: damemory/src/damemory.cc, and the handles of
-- damemory/include/damemory/damemory.h. `none` is DASIM_FATAL, which ends the process.
pub mod Outcomes
pub mod Api
pub mod Tests
use dasim.Base.{
  ℕ, ◌+◌, ◌-◌, ◌%◌, ◌^◌, ◌==◌, Bool, true, false, not, ◌&&◌, ◌||◌, Option, none, some, Map, insert,
  remove, ltb, if◌then◌else◌, u64, ◌>>=◌,
}
use dasim.Types.{page_size, Properties, einval}
use dasim.Calls.{CallParams, Payload, CallResult}

-- The bit pattern of -1 and of MAP_FAILED.
abbrev pub minus_one : ℕ
minus_one = u64 - 1

pub record Handle : Type 0 where
  pub addr : ℕ
  pub size : ℕ
  pub segid : ℕ
  pub apid : ℕ

unfoldable pub mk_invalid_handle : Handle
mk_invalid_handle = record { addr = minus_one; size = 0; segid = minus_one; apid = minus_one }

unfoldable pub damemory_handle_valid : Handle → Bool
damemory_handle_valid handle =
    not (handle.addr == minus_one) && (not (handle.size == 0) && not (handle.apid == minus_one))

-- What a function returns: 0, or -1.
pub data Status : Type 0 where
  success failure : Status

-- damanager_socket: -1, a descriptor, or -2.
pub data Connection : Type 0 where
  unconnected connected disconnected : Connection

-- What mmap() returns: an address, or MAP_FAILED with the value of errno.
pub data Reserved : Type 0 where
  reserved : ℕ → Reserved
  not_reserved : ℕ → Reserved

-- The answers of the kernel: mmap(NULL, size) among the areas that are mapped, munmap(),
-- xpmem_get(), xpmem_attach(), xpmem_detach(), xpmem_release() and the connection to the manager.
-- `unset` is what the member of a union holds that the manager has not written.
pub record Platform : Type 0 where
  pub reserve : Map ℕ → ℕ → Reserved
  pub munmap_fails : ℕ → Bool
  pub get : ℕ → Option ℕ
  pub attach_fails : ℕ → Bool
  pub detach_fails : ℕ → Bool
  pub release_fails : ℕ → Bool
  pub connects : Bool
  pub unset : ℕ

-- `S` is the state of the manager's side, and `areas` has the sizes of the areas of virtual memory
-- that the library has mapped, by address.
pub record Library (S : Type 0) : Type 0 where
  pub connection : Connection
  pub errno : ℕ
  pub areas : Map ℕ
  pub server : S

-- The member `segid` of the union, and the member `size`, which lie at one place.
abbrev pub word : Platform → Payload → ℕ
word p Payload.unset = p.unset
word p (Payload.segid segid) = segid
word p (Payload.size size) = size

module _ {S : Type 0} (answer : S → CallParams → Option (CallResult × S)) (p : Platform) where
  abbrev set_errno : Library S → ℕ → Library S
  set_errno s errno = record s { errno = errno }

  -- A write to a socket that is not connected fails.
  unfoldable pub call_manager : Library S → CallParams → Option (CallResult × Library S)
  call_manager s params = elim s.connection [
    | connected ↦ answer s.server params >>= λ r. some (r.0, record s { server = r.1 })
    | unconnected ↦ none
    | disconnected ↦ none
  ]

  -- The process id is written to the connection, which no call reads.
  unfoldable pub init : Library S → Option (Library S)
  init s = elim s.connection [
    | unconnected ↦ if p.connects then some (record s { connection = connected }) else none
    | connected ↦ some s
    | disconnected ↦ some s
  ]

  unfoldable pub close : Library S → Library S
  close s = elim s.connection [
    | connected ↦ record s { connection = disconnected }
    | unconnected ↦ s
    | disconnected ↦ s
  ]

  -- The name of a segment is attached over the area.
  unfoldable pub attach_seg : Library S → ℕ → ℕ → ℕ → Option (Handle × Library S)
  attach_seg s addr size segid = p.get segid >>= λ apid.
      if p.attach_fails addr
      then none
      else some (record { addr = addr; size = size; segid = segid; apid = apid }, s)

  -- The conversion of a size_t to int and back.
  unfoldable pub through_int : ℕ → ℕ
  through_int n = let low = n % 2 ^ 32 in if ltb low (2 ^ 31) then low else low + (2 ^ 64 - 2 ^ 32)

  -- `damemory_get_size` returns size_t what `get_size` returns as int.
  unfoldable pub get_size : Library S → ℕ → Option (ℕ × Library S)
  unfolding call_manager through_int
  get_size s id = call_manager s (CallParams.get_size id) >>= λ r.
      if not (r.0.error == 0)
      then some (0, set_errno r.1 r.0.error)
      else some (through_int (word p r.0.payload), r.1)

  -- The end of `alloc` where the manager refuses; an error of munmap() is only logged.
  unfoldable pub release_area : Library S → ℕ → ℕ → Handle × Library S
  unfolding mk_invalid_handle
  release_area s addr error =
      let areas = if p.munmap_fails addr then s.areas else remove addr s.areas in
      (mk_invalid_handle, record s { areas = areas; errno = error })

  unfoldable pub alloc : Library S → ℕ → ℕ → Properties → Option (Handle × Library S)
  unfolding call_manager attach_seg release_area mk_invalid_handle
  alloc s id size properties =
      if size == 0 || not (size % page_size == 0)
      then some (mk_invalid_handle, set_errno s einval)
      else elim (p.reserve s.areas size) [
        | not_reserved error ↦ some (mk_invalid_handle, set_errno s error)
        | reserved addr ↦
            call_manager (record s { areas = insert addr size s.areas })
              (CallParams.alloc id addr size properties)
            >>= λ r.
                if not (r.0.error == 0)
                then some (release_area r.1 addr r.0.error)
                else attach_seg r.1 addr size (word p r.0.payload)
      ]

  -- The part of `map` after the size is known; here a failure of munmap() is fatal.
  unfoldable pub map_sized : Library S → ℕ → ℕ → Option (Handle × Library S)
  unfolding call_manager attach_seg release_area mk_invalid_handle
  map_sized s id size = elim (p.reserve s.areas size) [
    | not_reserved error ↦ some (mk_invalid_handle, set_errno s error)
    | reserved addr ↦
        call_manager (record s { areas = insert addr size s.areas }) (CallParams.map id addr size)
        >>= λ r.
            if not (r.0.error == 0)
            then if p.munmap_fails addr then none else some (release_area r.1 addr r.0.error)
            else attach_seg r.1 addr size (word p r.0.payload)
  ]

  unfoldable pub map : Library S → ℕ → Option (Handle × Library S)
  unfolding call_manager map_sized mk_invalid_handle
  map s id = call_manager s (CallParams.get_size id) >>= λ r.
      if not (r.0.error == 0)
      then some (mk_invalid_handle, set_errno r.1 r.0.error)
      else map_sized r.1 id (word p r.0.payload)

  unfoldable pub unmap : Library S → Handle → Option (Status × Library S)
  unfolding call_manager damemory_handle_valid
  unmap s handle =
      if not (damemory_handle_valid handle)
      then some (failure, set_errno s einval)
      else (call_manager s (CallParams.unmap handle.addr) >>= λ r.
          let s1 = set_errno r.1 r.0.error in
          if not (r.0.error == 0)
          then some (failure, s1)
          else if p.detach_fails handle.addr || p.release_fails handle.apid
          then none
          else some (success, record s1 { areas = remove handle.addr s1.areas }))

  -- `anchor`, `unanchor` and `advise` only hand on the call and its error.
  unfoldable pub forward : Library S → CallParams → Option (Status × Library S)
  unfolding call_manager
  forward s params = call_manager s params >>= λ r.
      some (if r.0.error == 0 then success else failure, set_errno r.1 r.0.error)

  unfoldable pub anchor : Library S → ℕ → Option (Status × Library S)
  unfolding forward
  anchor s id = forward s (CallParams.anchor id)

  unfoldable pub unanchor : Library S → ℕ → Option (Status × Library S)
  unfolding forward
  unanchor s id = forward s (CallParams.unanchor id)

  unfoldable pub advise : Library S → ℕ → Properties → Option (Status × Library S)
  unfolding forward
  advise s id properties = forward s (CallParams.advise id properties)

  -- An error is logged and kept in errno, and 0 is returned all the same.
  unfoldable pub persist : Library S → Handle → ℕ → ℕ → Option (Status × Library S)
  unfolding call_manager
  persist s handle off size = call_manager s (CallParams.persist handle.addr off size) >>= λ r.
      some (success, set_errno r.1 r.0.error)
