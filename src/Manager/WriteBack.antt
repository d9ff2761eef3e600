-- ===== src/Manager/WriteBack.antt =====
-- Which pages are protected against writes when `persist` of the client manager has run.
use dasim.Base.{
  ℕ, zero, suc, ◌+◌, ◌*◌, ◌-◌, ◌/◌, ◌≤◌, ◌<◌, ◌≡◌, ◌≢◌, ◌∙◌, refl, sym, Bool, true, false, not,
  ◌&&◌, ◌||◌, some, some_inj, if_false, List, [], ◌∷◌, lookup, leb, ltb, if◌then◌else◌, ◌==◌, add64,
  u64, >>=-eq-some, arith, inl, inr, ◌⊎◌, Bool-cases,
}
use dasim.Types.{page_size}
use dasim.Manager.Interface.{BufferManager}
use dasim.Manager.State.{Kernel, Event, CmRegion, block_pfs, uffd_writeprotect, emit}
use dasim.Manager.Ops.{Cm, protect_pages, persist}

-- Whether the last call on the byte at `x` that did not fail protects it against writes.
abbrev pub protected_in : Kernel → ℕ → List Event → Bool
protected_in kernel x [] = false
protected_in kernel x (uffd_writeprotect addr n protect ∷ trace) =
    if (leb addr x && ltb x (addr + n)) && not (kernel.writeprotect_fails trace addr n protect)
    then protect
    else protected_in kernel x trace
protected_in kernel x (_ ∷ trace) = protected_in kernel x trace

-- No call that protects pages fails.
abbrev pub WriteprotectsAll : Kernel → Type 0
WriteprotectsAll kernel =
    (trace : List Event) (addr n : ℕ) → kernel.writeprotect_fails trace addr n true ≡ false

module _ (bm : BufferManager) (kernel : Kernel) where
  protect_pages-keeps :
      (rounds addr x : ℕ) (s : Cm bm kernel)
      → protected_in kernel x s.trace ≡ true
      → protected_in kernel x (protect_pages bm kernel rounds addr s).trace ≡ true
  unfolding protect_pages
  protect_pages-keeps zero addr x s h = h
  protect_pages-keeps (suc rounds) addr x s h =
      protect_pages-keeps rounds (add64 addr page_size) x
        (emit s (uffd_writeprotect addr page_size true)) (ground (arith, h))

  protect_pages-protects :
      WriteprotectsAll kernel
      → (rounds addr x : ℕ) (s : Cm bm kernel) → addr ≤ x
      → x < addr + rounds * page_size
      → addr + rounds * page_size < u64
      → protected_in kernel x (protect_pages bm kernel rounds addr s).trace ≡ true
  unfolding protect_pages
  protect_pages-protects works zero addr x s from to room = absurd (omega (arith, from, to))
  protect_pages-protects works (suc rounds) addr x s from to room =
      let s1 = emit s (uffd_writeprotect addr page_size true) in
      let next : add64 addr page_size ≡ addr + page_size = ground (arith, room) in
      elim (Bool-cases (ltb x (addr + page_size))) [
        | inl here ↦
            protect_pages-keeps rounds _ x s1
              (ground (arith, here, from, works s.trace addr page_size))
        | inr later ↦
            protect_pages-protects works rounds (add64 addr page_size) x s1
              (ground (arith, next, later)) (ground (arith, next, to)) (ground (arith, next, room))
      ]

  -- `persist` of a region that exists, when it returns, either returns an error and changes nothing,
  -- or returns 0, and then the last call on each byte of the range that did not fail has protected
  -- it against writes. This takes that no call that protects pages fails (a failure is only
  -- logged, and leaves the pages writable), that the region ends more than a page before the end of
  -- the address space, and that `off` plus `n` is less than 2 ^ 64 (the check of the range misses a
  -- sum that wraps around).
  pub persist-protects :
      WriteprotectsAll kernel
      → (s : Cm bm kernel) (id off n : ℕ) (region : CmRegion) (r : ℕ × Cm bm kernel)
      → lookup id s.regions ≡ some region
      → region.addr + region.size + page_size < u64
      → off + n < u64
      → persist bm kernel s id off n ≡ some r
      → ((r.0 ≢ 0) × (r.1 ≡ s))
        ⊎ ((r.0 ≡ 0)
            × ((x : ℕ)
                → region.addr + off ≤ x
                → x < region.addr + off + n
                → protected_in kernel x r.1.trace ≡ true))
  unfolding persist
  persist-protects works s id off n region r found room small e =
      let e1 = rw (found, persist) at e in
      elim (Bool-cases (ltb region.size off || ltb region.size (add64 off n))) [
        | inl bad ↦ let k = rw (bad) at e1 in rw (← some_inj _ _ k) (inl (ground arith, refl))
        | inr fits ↦
            let e2 = rw (fits) at e1 in
            let within : off + n ≤ region.size = ground (arith, fits, small) in
            elim (Bool-cases (not (bm.can_persist s.buffer_manager id off n == 0))) [
              | inl barred ↦
                  let k = rw (barred) at e2 in
                  rw (← some_inj _ _ k) (inl (ground (arith, barred), refl))
              | inr can ↦
                  let rounds = (n + (page_size - 1)) / page_size in
                  let from = add64 region.addr off in
                  let blocked = emit s (block_pfs id true) in
                  let protected = protect_pages bm kernel rounds from blocked in
                  let (b, _, k) =
                    >>=-eq-some (bm.persist protected.buffer_manager id off n) _
                      (sym (if_false _ _ _ can) ∙ e2) in
                  rw (← some_inj _ _ k) (
                    inr (
                      refl,
                      λ x lower upper.
                          protect_pages-protects works rounds from x blocked
                            (ground (arith, within, room, lower))
                            (ground (arith, within, room, upper)) (ground (arith, within, room)),
                    ))
            ]
      ]
