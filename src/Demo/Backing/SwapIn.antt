-- ===== src/Demo/Backing/SwapIn.antt =====
-- Swapping a page in gives its place in the swap file free, and keeps the bytes that others see.
use dasim.Base.{
  ℕ, ◌*◌, ◌≤◌, ◌≡◌, ◌≢◌, inl, inr, true, false, some, some_inj, List, ◌∷◌, count, if◌then◌else◌,
  ◌>>=◌, >>=-eq-some, Bool-cases, arith, ◌==◌, ==→eq,
}
use dasim.Types.{page_size}
use dasim.Demo.Pte.{RegionPte, is_swapped, get_swap_ix}
use dasim.Demo.PageIo.{Os, Bytes, read_loop, page_fuel}
use dasim.Demo.State.{DemoBufferManager}
use dasim.Demo.Paging.{swap_in_page}
use dasim.Demo.Backing.{PageAt, Owns, Backing, Everywhere, Elsewhere}
use dasim.Demo.Backing.Places.{swapped-Owns}

-- The state after the first part of a fault.
abbrev pub with_swap : DemoBufferManager → Bytes → List ℕ → DemoBufferManager
with_swap s tmp free = record s { tmp_page = tmp; free_swap_entries = free }

-- Weaker conditions, and free entries that are still right.
pub with_swap-Backing :
    {A B : ℕ → ℕ → Type 0} (s : DemoBufferManager) (tmp : Bytes) (free : List ℕ)
    → Backing A s
    → ((id i : ℕ) → B id i → A id i)
    → ((n : ℕ) → count n free ≤ 1)
    → ((id i n : ℕ) → B id i → Owns s.regions s.swapfd id i s.swapfd n → count n free ≡ 0)
    → Backing B (with_swap s tmp free)
with_swap-Backing s tmp free b within once taken = record {
  free_once = once;
  apart = λ id i id' i' fd n u u'. b.apart id i id' i' fd n (within id i u) (within id' i' u');
  taken = taken;
  home = λ id i pte fd u. b.home id i pte fd (within id i u);
  clean = λ id i pte fd u. b.clean id i pte fd (within id i u);
}

module _ (s : DemoBufferManager) (b : Backing Everywhere s) (id poff : ℕ) (pte : RegionPte) (fd : ℕ)
    (at : PageAt s.regions id poff pte fd) (absent : pte.present ≡ false) where
  -- What the page owned of the swap file, nobody else owns.
  freed-taken :
      (id' i' n : ℕ)
      → pte.swap ≡ true
      → fd ≡ s.swapfd
      → Elsewhere s.swapfd id poff fd id' i'
      → Owns s.regions s.swapfd id' i' s.swapfd n
      → count n (pte.nr ∷ s.free_swap_entries) ≡ 0
  freed-taken id' i' n swapped anon other owns =
      let mine = swapped-Owns {Among = Everywhere} s id poff pte fd b tt at absent swapped in
      let old = b.taken id' i' n tt owns in
      let ne : pte.nr ≢ n = λ eq.
        let same = b.apart id poff id' i' s.swapfd n tt tt (rw (anon, eq) at mine) owns in
        elim other [
          | inl apart ↦ elim apart [ inl k ↦ k same.0 | inr k ↦ k same.1 ]
          | inr k ↦ k anon
        ] in
      ground (arith, old, ne)

  freed_once :
      (n : ℕ) → pte.swap ≡ true → fd ≡ s.swapfd → count n (pte.nr ∷ s.free_swap_entries) ≤ 1
  freed_once n swapped anon =
      let mine = swapped-Owns {Among = Everywhere} s id poff pte fd b tt at absent swapped in
      let free = b.taken id poff pte.nr tt (rw anon at mine) in ground (arith, b.free_once n, free)

  kept-Backing :
      (tmp : Bytes) → Backing (Elsewhere s.swapfd id poff fd) (with_swap s tmp s.free_swap_entries)
  kept-Backing tmp =
      with_swap-Backing s tmp s.free_swap_entries b (λ id' i' u. tt) b.free_once
        (λ id' i' n u. b.taken id' i' n tt)

  pub swapped_in-Backing :
      (os : Os) (s1 : DemoBufferManager)
      → (if is_swapped pte
          then (get_swap_ix pte >>= λ swap_ix. swap_in_page os s fd swap_ix)
          else some s)
        ≡ some s1
      → Backing (Elsewhere s.swapfd id poff fd) s1
  unfolding is_swapped get_swap_ix swap_in_page
  swapped_in-Backing os s1 e = elim (Bool-cases pte.swap) [
    | inr fresh ↦ rw (← some_inj s s1 (rw fresh at e)) (kept-Backing s.tmp_page)
    | inl swapped ↦
        let (tmp, _, k) =
          >>=-eq-some (read_loop os page_fuel fd (s.files fd) (pte.nr * page_size) 0 s.tmp_page) _
            (rw (swapped) at e) in
        elim (Bool-cases (fd == s.swapfd)) [
          | inr pers ↦ rw (← some_inj _ _ (rw (pers) at k)) (kept-Backing tmp)
          | inl same ↦
              let anon = ==→eq fd s.swapfd same in
              rw (← some_inj _ _ (rw (same) at k)) (
                with_swap-Backing s tmp (pte.nr ∷ s.free_swap_entries) b (λ id' i' u. tt)
                  (λ n. freed_once n swapped anon) (λ id' i' n. freed-taken id' i' n swapped anon))
        ]
  ]
