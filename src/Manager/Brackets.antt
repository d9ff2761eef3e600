-- ===== src/Manager/Brackets.antt =====
-- The order of the kernel calls around a fault and around write-back.
use dasim.Base.{
  ℕ, ◌≡◌, ◌∙◌, refl, sym, ap, Bool, true, false, not, ◌&&◌, ◌||◌, some, some_inj, if_true, if_false,
  List, ◌∷◌, if◌then◌else◌, >>=-eq-some, inl, inr, Bool-cases, sub64,
}
use dasim.Manager.Interface.{BufferManager}
use dasim.Manager.State.{
  Kernel, Event, CmRegion, block_pfs, uffd_register, uffd_writeprotect, uffd_continue, uffd_wake,
  emit, register_userfaultfd,
}
use dasim.Manager.Ops.{Cm}
use dasim.Manager.Faults.{
  UffdMsg, resolve_missing, resolve_protected, resolve, resolve_in, find_region, handle_userfault,
}

-- The calls that change how the pages of a mapping are tracked, and neither wake a thread nor
-- touch a segment.
abbrev pub tracks : Event → Bool
tracks (uffd_register addr n minor) = true
tracks (uffd_writeprotect addr n protect) = true
tracks (uffd_continue addr n) = true
tracks _ = false

-- `trace'` is `trace` with such calls after it.
pub data Tracking (trace : List Event) : List Event → Type 0 where
  start : Tracking trace trace
  later :
      {e : Event} {trace' : List Event}
      → tracks e ≡ true
      → Tracking trace trace'
      → Tracking trace (e ∷ trace')

module _ (bm : BufferManager) (kernel : Kernel) where
  register-Tracking :
      {trace : List Event} (s : Cm bm kernel) (addr n : ℕ)
      → Tracking trace s.trace
      → Tracking trace (register_userfaultfd kernel s addr n).1.trace
  unfolding register_userfaultfd
  register-Tracking s addr n t = elim (Bool-cases (kernel.register_fails s.trace addr n true)) [
    | inl again ↦ rw again (later refl (later refl t))
    | inr once ↦ rw once (later refl t)
  ]

  either-Tracking :
      {trace : List Event} (b : Bool) (s s' : Cm bm kernel)
      → Tracking trace s.trace
      → Tracking trace s'.trace
      → Tracking trace (if b then s else s').trace
  either-Tracking true s s' t t' = t
  either-Tracking false s s' t t' = t'

  resolve_missing-Tracking :
      (s : Cm bm kernel) (id off : ℕ) (minor write : Bool) (r : ℕ × ℕ × Cm bm kernel)
      → resolve_missing bm kernel s id off minor write ≡ some r
      → Tracking s.trace r.2.trace
  unfolding resolve_missing
  resolve_missing-Tracking s id off minor write r e =
      let (a, _, k) = >>=-eq-some (bm.unfix s.buffer_manager id off write) _ e in
      let s1 : Cm bm kernel = record s { buffer_manager = a.1 } in
      let s2 =
        if a.0.mapping_changed then (register_userfaultfd kernel s1 a.0.from a.0.size).1 else s1 in
      let t2 =
        either-Tracking a.0.mapping_changed _ s1 (register-Tracking s1 a.0.from a.0.size start)
          start in
      let t3 =
        either-Tracking a.0.writeprotect (emit s2 (uffd_writeprotect a.0.from a.0.size true)) s2
          (later refl t2) t2 in
      rw (← some_inj _ _ k)
        (either-Tracking (not a.0.mapping_changed && minor) _ _ (later refl t3) t3)

  resolve_protected-Tracking :
      (s : Cm bm kernel) (id off : ℕ) (r : ℕ × ℕ × Cm bm kernel)
      → resolve_protected bm kernel s id off ≡ some r
      → Tracking s.trace r.2.trace
  unfolding resolve_protected
  resolve_protected-Tracking s id off r e =
      let (a, _, k) = >>=-eq-some (bm.mark_dirty s.buffer_manager id off) _ e in
      let s1 : Cm bm kernel = record s { buffer_manager = a.1 } in
      rw (← some_inj _ _ k) (
        either-Tracking a.0.writeunprotect (emit s1 (uffd_writeprotect a.0.from a.0.size false)) s1
          (later refl start) start)

  resolve-Tracking :
      (s : Cm bm kernel) (id off : ℕ) (msg : UffdMsg) (r : ℕ × ℕ × Cm bm kernel)
      → resolve bm kernel s id off msg ≡ some r
      → Tracking s.trace r.2.trace
  unfolding resolve
  resolve-Tracking s id off msg r e =
      elim (Bool-cases (not (msg.flag_wp || msg.flag_minor) || msg.flag_minor)) [
        | inl missing ↦
            resolve_missing-Tracking s id off msg.flag_minor (msg.flag_wp || msg.flag_write) r
              (sym (if_true _ _ _ missing) ∙ e)
        | inr present ↦
            let e1 = sym (if_false _ _ _ present) ∙ e in
            elim (Bool-cases (msg.flag_wp || msg.flag_write)) [
              | inl write ↦ resolve_protected-Tracking s id off r (sym (if_true _ _ _ write) ∙ e1)
              | inr read ↦ let k = sym (if_false _ _ _ read) ∙ e1 in rw (← some_inj _ _ k) start
            ]
      ]

  -- A fault in a region is resolved while page faults in the segment of that region are blocked:
  -- the calls of `handle_userfault` are, in this order, one that blocks them, calls that only
  -- change how pages are tracked, one that unblocks them, and at last the only one that wakes the
  -- thread.
  pub handle_userfault-brackets :
      (s s' : Cm bm kernel) (msg : UffdMsg) (id : ℕ) (region : CmRegion)
      → msg.is_pagefault ≡ true
      → find_region bm kernel s msg.address ≡ some (id, region)
      → handle_userfault bm kernel s (some msg) ≡ some s'
      → ((from : ℕ) × (n : ℕ) × (trace : List Event) × Tracking
            (block_pfs region.segid true ∷ s.trace)
            trace
          × (s'.trace ≡ uffd_wake from n ∷ block_pfs region.segid false ∷ trace))
  unfolding handle_userfault resolve_in
  handle_userfault-brackets s s' msg id region fault found e =
      let e1 = rw (fault, found, handle_userfault) at e in
      let blocked = emit s (block_pfs region.segid true) in
      let off = sub64 msg.address region.addr in
      let (r, done, k) = >>=-eq-some (resolve bm kernel blocked id off msg) _ e1 in
      (
        r.0,
        r.1,
        r.2.trace,
        resolve-Tracking blocked id off msg r done,
        sym (ap (λ t. t.trace) (some_inj _ _ k)),
      )
