-- ===== src/Library/Outcomes.antt =====
-- What the calls of the library leave behind, whether they succeed or not.
use dasim.Base.{
  ℕ, ◌-◌, ==→eq, true, ◌%◌, ◌^◌, ◌<◌, ◌≤◌, ◌≡◌, ◌≢◌, ◌∙◌, refl, sym, ap, Bool, false, not, ◌||◌,
  ◌==◌, Option, none, some, some_inj, if_true, if_false, Map, lookup, insert, remove, lookup-insert,
  lookup-remove, if◌then◌else◌, ltb, >>=-eq-some, arith, inl, inr, ◌⊎◌, Bool-cases,
}
use dasim.Types.{einval, page_size, Properties}
use dasim.Calls.{CallParams, CallResult}
use dasim.Library.{
  Handle, Library, Platform, Reserved, reserved, not_reserved, Connection, connected, unconnected,
  disconnected, word, minus_one, mk_invalid_handle, call_manager, attach_seg, release_area, alloc,
  map_sized, map, get_size, through_int,
}

-- mmap() returns an area that is not mapped, and sets errno when it fails.
pub record Reserves (p : Platform) : Type 0 where
  pub fresh :
      (areas : Map ℕ) (n addr : ℕ)
      → p.reserve areas n ≡ reserved addr
      → (lookup addr areas ≡ none) × (addr ≢ minus_one)
  pub sets : (areas : Map ℕ) (n error : ℕ) → p.reserve areas n ≡ not_reserved error → error ≢ 0

pub Reserved-cases :
    (r : Reserved) → ((error : ℕ) × (r ≡ not_reserved error)) ⊎ ((addr : ℕ) × (r ≡ reserved addr))
Reserved-cases (not_reserved error) = inl (error, refl)
Reserved-cases (reserved addr) = inr (addr, refl)

Connection-cases : (c : Connection) → (c ≡ connected) ⊎ ((c ≡ unconnected) ⊎ (c ≡ disconnected))
Connection-cases connected = inl refl
Connection-cases unconnected = inr (inl refl)
Connection-cases disconnected = inr (inr refl)

-- Either an invalid handle, an error, and the same areas as before, or a handle of `n` bytes at an
-- area that is new.
abbrev pub Outcome : Map ℕ → ℕ → Handle → ℕ → Map ℕ → Type 0
Outcome areas n handle errno areas' =
    ((handle ≡ mk_invalid_handle) × (errno ≢ 0) × ((a : ℕ) → lookup a areas' ≡ lookup a areas))
    ⊎ ((handle.size ≡ n)
        × (lookup handle.addr areas ≡ none)
        × ((a : ℕ) → lookup a areas' ≡ (if handle.addr == a then some n else lookup a areas)))

-- The two cases of the check of a size.
bad_size : (n : ℕ) → (n == 0 || not (n % page_size == 0)) ≡ true → (n ≡ 0) ⊎ (n % page_size ≢ 0)
bad_size n bad = elim (Bool-cases (n == 0)) [
  | inl is ↦ inl (==→eq n 0 is)
  | inr isnt ↦ inr (λ whole. absurd (ground (arith, bad, isnt, whole)))
]

good_size : (n : ℕ) → (n == 0 || not (n % page_size == 0)) ≡ false → (n ≢ 0) × (n % page_size ≡ 0)
good_size n good = (λ z. absurd (ground (arith, good, z)), ground (arith, good))

module _ {S : Type 0} (answer : S → CallParams → Option (CallResult × S)) (p : Platform) where
  call_manager-areas :
      (s : Library S) (params : CallParams) (r : CallResult × Library S)
      → call_manager answer p s params ≡ some r
      → r.1.areas ≡ s.areas
  unfolding call_manager
  call_manager-areas s params r e = elim (Connection-cases s.connection) [
    | inl live ↦
        let (a, _, k) = >>=-eq-some (answer s.server params) _ (rw (live, call_manager) at e) in
        rw (← some_inj _ _ k) refl
    | inr (inl shut) ↦ let k = rw (shut, call_manager) at e in absurd cc
    | inr (inr shut) ↦ let k = rw (shut, call_manager) at e in absurd cc
  ]

  released :
      (areas : Map ℕ) (addr n a : ℕ)
      → lookup addr areas ≡ none
      → lookup a (remove addr (insert addr n areas)) ≡ lookup a areas
  released areas addr n a fresh = ground (
    arith,
    lookup-remove addr a (insert addr n areas),
    lookup-insert addr a n areas,
    λ (is : addr ≡ a). ap (λ x. lookup x areas) is,
  )

  -- What both `alloc` and `map` do from the answer of the manager on.
  attach_seg-Outcome :
      (s : Library S) (areas : Map ℕ) (addr n segid : ℕ) (r : Handle × Library S)
      → lookup addr areas ≡ none
      → s.areas ≡ insert addr n areas
      → attach_seg answer p s addr n segid ≡ some r
      → Outcome areas n r.0 r.1.errno r.1.areas
  unfolding attach_seg
  attach_seg-Outcome s areas addr n segid r fresh is e =
      let (apid, _, e1) = >>=-eq-some (p.get segid) _ e in
      elim (Bool-cases (p.attach_fails addr)) [
        | inl fails ↦ let k = rw (fails) at e1 in absurd cc
        | inr attached ↦
            let k = rw (attached) at e1 in
            rw (← some_inj _ _ k) (inr (refl, fresh, λ a. rw is (lookup-insert addr a n areas)))
      ]

  answered-Outcome :
      ((addr : ℕ) → p.munmap_fails addr ≡ false)
      → (s : Library S) (areas : Map ℕ) (addr n error segid : ℕ) (r : Handle × Library S)
      → lookup addr areas ≡ none
      → s.areas ≡ insert addr n areas
      → (if not (error == 0)
          then some (release_area answer p s addr error)
          else attach_seg answer p s addr n segid)
        ≡ some r
      → Outcome areas n r.0 r.1.errno r.1.areas
  unfolding release_area
  answered-Outcome unmaps s areas addr n error segid r fresh is e =
      elim (Bool-cases (not (error == 0))) [
        | inl refused ↦
            let k = sym (if_true _ _ _ refused) ∙ e in
            rw (← some_inj _ _ k, unmaps addr)
              (inl (refl, ground (arith, refused), λ a. rw is (released areas addr n a fresh)))
        | inr granted ↦
            attach_seg-Outcome s areas addr n segid r fresh is (sym (if_false _ _ _ granted) ∙ e)
      ]

  -- `damemory_alloc` of a size that is 0 or no multiple of the page size returns an invalid handle,
  -- sets errno to EINVAL and changes nothing else. Of any other size it either returns an invalid
  -- handle, sets errno and leaves the address space as it was, or returns a handle of that size at
  -- an area that was not mapped and is the only new one. This takes that mmap() returns new areas
  -- and sets errno, that munmap() does not fail, and that the call returns.
  pub damemory_alloc-Outcome :
      Reserves p
      → ((addr : ℕ) → p.munmap_fails addr ≡ false)
      → (s : Library S) (id n : ℕ) (properties : Properties) (r : Handle × Library S)
      → alloc answer p s id n properties ≡ some r
      → (((n ≡ 0) ⊎ (n % page_size ≢ 0)) × (r ≡ (mk_invalid_handle, record s { errno = einval })))
        ⊎ ((n ≢ 0) × (n % page_size ≡ 0) × Outcome s.areas n r.0 r.1.errno r.1.areas)
  unfolding alloc
  damemory_alloc-Outcome reserves unmaps s id n properties r e =
      elim (Bool-cases (n == 0 || not (n % page_size == 0))) [
        | inl bad ↦ let k = rw (bad) at e in rw (← some_inj _ _ k) (inl (bad_size n bad, refl))
        | inr good ↦
            let e1 = rw (good) at e in
            let (positive, whole) = good_size n good in
            inr (
              positive,
              whole,
              elim (Reserved-cases (p.reserve s.areas n)) [
                | inl (error, failed) ↦
                    let k = rw (failed) at e1 in
                    rw (← some_inj _ _ k)
                      (inl (refl, reserves.sets s.areas n error failed, λ a. refl))
                | inr (addr, ok) ↦
                    let (fresh, _) = reserves.fresh s.areas n addr ok in
                    let (a, called, e2) =
                      >>=-eq-some
                        (call_manager answer p (record s { areas = insert addr n s.areas })
                          (CallParams.alloc id addr n properties))
                        _ (rw (ok) at e1) in
                    answered-Outcome unmaps a.1 s.areas addr n a.0.error (word p a.0.payload) r
                      fresh (call_manager-areas _ _ a called) e2
              ],
            )
      ]

  map_sized-Outcome :
      Reserves p
      → ((addr : ℕ) → p.munmap_fails addr ≡ false)
      → (s : Library S) (id n : ℕ) (r : Handle × Library S) → map_sized answer p s id n ≡ some r
      → Outcome s.areas n r.0 r.1.errno r.1.areas
  unfolding map_sized
  map_sized-Outcome reserves unmaps s id n r e = elim (Reserved-cases (p.reserve s.areas n)) [
    | inl (error, failed) ↦
        let k = rw (failed, map_sized) at e in
        rw (← some_inj _ _ k) (inl (refl, reserves.sets s.areas n error failed, λ a. refl))
    | inr (addr, ok) ↦
        let (fresh, _) = reserves.fresh s.areas n addr ok in
        let reserving : Library S = record s { areas = insert addr n s.areas } in
        let (a, called, e1) =
          >>=-eq-some (call_manager answer p reserving (CallParams.map id addr n)) _
            (rw (ok, map_sized) at e) in
        let segid = word p a.0.payload in
        let released = some (release_area answer p a.1 addr a.0.error) in
        let e2 =
          ap
            (λ (fails : Bool).
              if not (a.0.error == 0)
              then if fails then none else released
              else attach_seg answer p a.1 addr n segid)
            (sym (unmaps addr))
          ∙ e1 in
        answered-Outcome unmaps a.1 s.areas addr n a.0.error segid r fresh
          (call_manager-areas reserving (CallParams.map id addr n) a called) e2
  ]

  -- `damemory_map` either returns an invalid handle, sets errno and leaves the address space as it
  -- was, or returns a handle whose size is that of the only area that is new. This takes that
  -- mmap() returns new areas and sets errno, that munmap() does not fail, and that the call
  -- returns.
  pub damemory_map-Outcome :
      Reserves p
      → ((addr : ℕ) → p.munmap_fails addr ≡ false)
      → (s : Library S) (id : ℕ) (r : Handle × Library S) → map answer p s id ≡ some r
      → (n : ℕ) × Outcome s.areas n r.0 r.1.errno r.1.areas
  unfolding map
  damemory_map-Outcome reserves unmaps s id r e =
      let (a, called, e1) = >>=-eq-some (call_manager answer p s (CallParams.get_size id)) _ e in
      let same = call_manager-areas s (CallParams.get_size id) a called in
      elim (Bool-cases (not (a.0.error == 0))) [
        | inl refused ↦
            let k = sym (if_true _ _ _ refused) ∙ e1 in
            rw (← some_inj _ _ k) (0, inl (refl, ground (arith, refused), λ b. ap (lookup b) same))
        | inr granted ↦
            let n = word p a.0.payload in
            (
              n,
              rw (← same) (
                  map_sized-Outcome reserves unmaps a.1 id n r (sym (if_false _ _ _ granted) ∙ e1)),
            )
      ]

  -- `damemory_get_size` passes the size through an int: it returns the size that the manager
  -- answers exactly if that is below 2 GiB, and a wrong one if it lies from there up to 2 GiB
  -- before the end of the address space.
  pub get_size-through_int :
      (s : Library S) (id n : ℕ) (r : CallResult × Library S)
      → call_manager answer p s (CallParams.get_size id) ≡ some r
      → r.0.error ≡ 0
      → word p r.0.payload ≡ n
      → n < 2 ^ 64 - 2 ^ 31
      → (out : ℕ) × (get_size answer p s id ≡ some (out, r.1))
        × (((n < 2 ^ 31) × (out ≡ n)) ⊎ ((2 ^ 31 ≤ n) × (out ≢ n)))
  unfolding get_size through_int
  get_size-through_int s id n r called ok is small = (
    through_int answer p n,
    rw (called, ok, is, get_size) refl,
    elim (Bool-cases (ltb n (2 ^ 31))) [
      | inl below ↦ inl (ground (arith, below), ground (arith, below))
      | inr beyond ↦ inr (ground (arith, beyond), ground (arith, beyond, small))
    ],
  )
