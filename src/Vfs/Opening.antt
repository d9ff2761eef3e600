-- ===== src/Vfs/Opening.antt =====
-- What `demoOpen` gives.
use dasim.Base.{ℕ, ◌+◌, ◌≤◌, ◌<◌, ◌≡◌, Bool, true, false, Option, none, some, ◌⊎◌}
use dasim.Demo.PageIo.{Bytes}
use dasim.Library.{Handle, Status, damemory_handle_valid}
use dasim.Library.Api.{Damemory}
use dasim.Vfs.{OpenFlags, fails, dbfilesize, file_properties}

-- The memory outside the length word of a file.
abbrev pub Beside : Handle → Bytes → Bytes → Type 0
Beside handle mem mem' = (a : ℕ) → (a < handle.addr) ⊎ (handle.addr + 8 ≤ a) → mem' a ≡ mem a

module _ (api : Damemory) (s : api.State) (flags : OpenFlags) (id : ℕ) where
  -- The region is mapped, with this answer.
  abbrev Maps : Handle → api.State → Bool → Type 0
  Maps handle s1 valid =
      (flags.exclusive ≡ false)
      × (api.map s id ≡ some (handle, s1))
      × (damemory_handle_valid handle ≡ valid)

  -- The region is allocated, with this answer: either it must be a new one, or it could not be mapped
  -- and may be created.
  abbrev Allocates : Handle → api.State → Bool → Type 0
  Allocates handle s2 valid =
      (s1 : api.State) × (((flags.exclusive ≡ true) × (s1 ≡ s))
        ⊎ ((flags.create ≡ true) × ((h : Handle) × Maps h s1 false)))
      × (api.alloc s1 id dbfilesize file_properties ≡ some (handle, s2))
      × (damemory_handle_valid handle ≡ valid)

  -- There is no region: it cannot be mapped and may not be created, or it cannot be allocated.
  abbrev pub Missing : Type 0
  Missing =
      (h : Handle) × (s1 : api.State) × (((flags.create ≡ false) × Maps h s1 false)
        ⊎ Allocates h s1 false)

  -- A region that is mapped, and one that is new.
  abbrev pub Mapped : Handle → api.State → Type 0
  Mapped handle s1 = Maps handle s1 true

  abbrev pub Created : Handle → api.State → Type 0
  Created handle s1 = Allocates handle s1 true

  abbrev Obtained : Option (Handle × Bool) → api.State → Type 0
  Obtained none s1 = Missing
  Obtained (some (handle, false)) s1 = Mapped handle s1
  Obtained (some (handle, true)) s1 = Created handle s1

  -- The region cannot be anchored.
  abbrev pub Loose : Type 0
  Loose =
      (h : Handle) × (s1 : api.State) × (Mapped h s1 ⊎ Created h s1)
      × ((u : Status × api.State) × (api.anchor s1 id ≡ some u) × (fails u.0 ≡ true))
