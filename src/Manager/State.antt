-- ===== src/Manager/State.antt =====
-- The state of `client_manager`, and what it asks of the kernel. Calls of XPMEM and userfaultfd are
-- kept as a trace, newest first, and a kernel answers each call by the trace before it.
use dasim.Base.{
  ℕ, ◌≡◌, refl, inl, inr, ◌⊎◌, Bool, true, false, Option, List, ◌∷◌, Map, if◌then◌else◌,
}

pub data Event : Type 0 where
  xpmem_make : ℕ → ℕ → Event
  xpmem_remove : ℕ → Event
  block_pfs : ℕ → Bool → Event
  uffd_register : ℕ → ℕ → Bool → Event
  uffd_writeprotect : ℕ → ℕ → Bool → Event
  uffd_continue : ℕ → ℕ → Event
  uffd_wake : ℕ → ℕ → Event

-- A segment id, or -1 with the value of errno.
pub data MakeResult : Type 0 where
  made : ℕ → MakeResult
  make_failed : ℕ → MakeResult

pub MakeResult-cases :
    (r : MakeResult) → ((e : ℕ) × (r ≡ make_failed e)) ⊎ ((segid : ℕ) × (r ≡ made segid))
MakeResult-cases (make_failed e) = inl (e, refl)
MakeResult-cases (made segid) = inr (segid, refl)

pub record Kernel : Type 0 where
  pub make : List Event → ℕ → ℕ → MakeResult
  pub remove : List Event → ℕ → Option ℕ
  pub register_fails : List Event → ℕ → ℕ → Bool → Bool
  pub writeprotect_fails : List Event → ℕ → ℕ → Bool → Bool

pub record ClientRegionInfo : Type 0 where
  pub segid : ℕ
  pub size : ℕ

pub record CmRegion : Type 0 where
  pub addr : ℕ
  pub size : ℕ
  pub segid : ℕ
  pub mapcount : ℕ

-- `B` is the state of the buffer manager.
pub record ClientManager (B : Type 0) : Type 0 where
  pub regions : Map CmRegion
  pub region_map : Map ℕ
  pub buffer_manager : B
  pub trace : List Event

module _ {B : Type 0} where
  abbrev pub emit : ClientManager B → Event → ClientManager B
  emit s e = record s { trace = e ∷ s.trace }

  -- The `register_userfaultfd` with three arguments: with minor faults, or else without.
  unfoldable pub register_userfaultfd : Kernel → ClientManager B → ℕ → ℕ → Bool × ClientManager B
  register_userfaultfd kernel s addr size =
      let s1 = emit s (uffd_register addr size true) in
      if kernel.register_fails s.trace addr size true
      then (kernel.register_fails s1.trace addr size false, emit s1 (uffd_register addr size false))
      else (false, s1)
