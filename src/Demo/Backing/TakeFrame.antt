-- ===== src/Demo/Backing/TakeFrame.antt =====
-- Taking a frame for a fault, and the bytes that every region shows.
use dasim.Base.{
  ℕ, ◌+◌, ◌*◌, ◌<◌, ◌≡◌, ◌≢◌, ◌∙◌, refl, sym, ap, ◌⊎◌, inl, inr, true, false, not, ◌&&◌, some,
  some_inj, List, [], ◌∷◌, if_true, if_false, >>=-eq-some, Bool-cases, List-cases, arith, ◌==◌,
  ==→eq, ==→ne, erase,
}
use dasim.Types.{page_size}
use dasim.Demo.Pte.{RegionPte, make_swap}
use dasim.Demo.PageIo.{Os, Bytes, blit, write_loop, page_fuel}
use dasim.Demo.PageIo.Transfers.{WritesMove, write_loop_page}
use dasim.Demo.State.{DemoBufferManager, pte_at, is_anon}
use dasim.Demo.State.Inv.{Inv, frame_of_slot}
use dasim.Demo.Paging.{swap_out_page_data, take_page}
use dasim.Demo.Paging.SwapOut.{SwapsOut, unwritten, swap_out_page-SwapsOut}
use dasim.Demo.Paging.Frames.{PagesOut-eq}
use dasim.Demo.Paging.Kept.{swap_out_page_data-writes}
use dasim.Demo.Backing.{fd_of, content, view, PageAt, Backing}
use dasim.Demo.Backing.Places.{fd_of-set_pte}
use dasim.Demo.Backing.PageOut.{Leaves, paged-view, paged-Backing}

pub blit_page_ne :
    (dst src : Bytes) (ix from n k : ℕ)
    → ix ≢ n
    → k < page_size
    → blit dst (ix * page_size) src from page_size (n * page_size + k) ≡ dst (n * page_size + k)
blit_page_ne dst src ix from n k ne below = ground (arith, ne, below)

-- A page that is written changes nothing but its place in its file.
pub swap_out_page_data-keeps :
    (os : Os) (s : DemoBufferManager) (p fd ix : ℕ) (s' : DemoBufferManager)
    → WritesMove os
    → swap_out_page_data os s p fd ix ≡ some s'
    → (fd' n k : ℕ) → (fd ≢ fd') ⊎ (ix ≢ n)
    → k < page_size
    → s'.files fd' (n * page_size + k) ≡ s.files fd' (n * page_size + k)
unfolding swap_out_page_data
swap_out_page_data-keeps os s p fd ix s' moves e fd' n k other below =
    let (file, done, e1) =
      >>=-eq-some (write_loop os page_fuel s.shm (p * page_size) fd (ix * page_size) 0 (s.files fd))
        _ e in
    let is = some_inj _ _ (
      sym done ∙ write_loop_page os s.shm (s.files fd) (p * page_size) fd (ix * page_size) moves) in
    elim (Bool-cases (fd == fd')) [
      | inr ne ↦ rw (← some_inj _ _ e1, ne)
      | inl same ↦ elim other [
        | inl ne ↦ absurd (ne (==→eq fd fd' same))
        | inr ne ↦
            rw (← some_inj _ _ e1, is, same)
              (blit_page_ne (s.files fd) s.shm ix (p * page_size) n k ne below
                ∙ ap (λ (f : ℕ). s.files f (n * page_size + k)) (==→eq fd fd' same))
      ]
    ]

-- What a fault needs of the frame that it takes.
pub record Taken (Among : ℕ → ℕ → Type 0) (s s' : DemoBufferManager) : Type 0 where
  pub backing : Backing Among s'
  pub shows : (id i k : ℕ) → Among id i → k < page_size → view s' id i k ≡ view s id i k
  pub fds : (id : ℕ) → fd_of s'.regions id ≡ fd_of s.regions id
  pub swapfd : s'.swapfd ≡ s.swapfd

module _ {nr : ℕ} (Among : ℕ → ℕ → Type 0) (os : Os) (s : DemoBufferManager) (v : Inv nr [] s)
    (b : Backing Among s) (moves : WritesMove os)
    (covers : (id i : ℕ) (pte : RegionPte)
      → pte_at s.regions id i ≡ some pte
      → pte.present ≡ true
      → Among id i) where
  -- Where the bytes of the frame are after it was paged out.
  abbrev Stored : ℕ → ℕ → ℕ → DemoBufferManager → Type 0
  Stored p fd ix s' =
      ((k : ℕ) → k < page_size → s'.files fd (ix * page_size + k) ≡ s.shm (p * page_size + k))
      × ((fd' n k : ℕ)
          → (fd ≢ fd') ⊎ (ix ≢ n)
          → k < page_size
          → s'.files fd' (n * page_size + k) ≡ s.files fd' (n * page_size + k))

  module _ (p : ℕ) (s' : DemoBufferManager) (out : SwapsOut os s p s') where
    own_page :
        PageAt s.regions
          (s.page_infos p).region_id
          (s.page_infos p).off
          out.paged.pte
          out.paged.region.swapfd
    unfolding pte_at fd_of
    own_page = record {
      entry = rw out.paged.has_region out.paged.has_pte;
      backed_by = rw out.paged.has_region;
    }

    own_frame : (out.paged.pte.nr ≡ p) × (out.paged.pte.present ≡ true)
    own_frame = frame_of_slot s v p _ _ out.paged.pte refl refl out.found.member own_page.entry

    own_among : Among (s.page_infos p).region_id (s.page_infos p).off
    own_among = covers _ _ out.paged.pte own_page.entry own_frame.1

    own_choice :
        ((out.paged.region.swapfd ≡ s.swapfd) × (s.free_swap_entries ≡ out.ix ∷ out.rest))
        ⊎ ((out.paged.region.swapfd ≢ s.swapfd)
            × (out.ix ≡ (s.page_infos p).off)
            × (out.rest ≡ s.free_swap_entries))
    unfolding is_anon
    own_choice =
        let is : out.found.region ≡ out.paged.region =
          some_inj _ _ (sym out.found.has_region ∙ out.paged.has_region) in
        elim out.found.choice [
          | inl (anon, free) ↦ inl (==→eq _ _ (rw is at anon), free)
          | inr (pers, at_off, same) ↦ inr (==→ne _ _ (rw is at pers), at_off, same)
        ]

    stored : Stored p out.paged.region.swapfd out.ix s'
    unfolding is_anon
    stored =
        let t : DemoBufferManager = record s { free_swap_entries = out.rest } in
        let info = s.page_infos p in
        let fd = out.paged.region.swapfd in
        let u = unwritten t p out.ix out.paged.pte in
        elim (Bool-cases (not (fd == s.swapfd) && not info.dirty)) [
          | inr write ↦
              let e = sym (if_false _ _ _ write) ∙ out.paged.written in
              (
                λ k below. swap_out_page_data-writes os u p fd out.ix s' moves e k below,
                λ fd' n k other below.
                    swap_out_page_data-keeps os u p fd out.ix s' moves e fd' n k other below,
              )
          | inl skip ↦
              let same =
                ap (λ (w : DemoBufferManager). w.files)
                  (some_inj u s' (sym (if_true _ _ _ skip) ∙ out.paged.written)) in
              let flags : (fd ≢ s.swapfd) × (info.dirty ≡ false) = ground (arith, skip) in
              let at_off : out.ix ≡ info.off = elim own_choice [
                | inl (anon, _) ↦ absurd (flags.0 anon)
                | inr (_, at, _) ↦ at
              ] in
              (
                λ k below.
                    rw (← same, at_off)
                      (b.clean info.region_id info.off out.paged.pte fd own_among own_page flags.0
                          own_frame.1 (rw own_frame.0 flags.1) k below
                        ∙ ap (λ (q : ℕ). s.shm (q * page_size + k)) own_frame.0),
                λ fd' n k other below. rw (← same),
              )
        ]

    swapped_out-Leaves :
        Leaves Among s
          (s.page_infos p).region_id
          (s.page_infos p).off
          p
          out.paged.region.swapfd
          out.ix
          out.rest
          s'.files
    swapped_out-Leaves = record {
      pte = out.paged.pte;
      page = own_page;
      present = own_frame.1;
      frame = own_frame.0;
      among = own_among;
      choice = own_choice;
      written = stored.0;
      kept = stored.1;
    }

    swapped_out-Taken : Taken Among s s'
    unfolding swapped_out-Leaves
    swapped_out-Taken =
        let info = s.page_infos p in
        let fd = out.paged.region.swapfd in
        let used = erase info.used_pages_it s.used_pages in
        let t : DemoBufferManager = record s { free_swap_entries = out.rest } in
        let l = swapped_out-Leaves in
        rw (PagesOut-eq os t p out.ix s' out.paged) (record {
          backing =
              paged-Backing Among s b info.region_id info.off p fd out.ix out.rest used s'.files l;
          shows = paged-view Among s b info.region_id info.off p fd out.ix out.rest used s'.files l;
          fds = fd_of-set_pte s.regions info.region_id info.off (make_swap out.paged.pte out.ix);
          swapfd = refl;
        })

  popped-Taken : (free : List ℕ) → Taken Among s (record s { free_pages = free })
  unfolding view content
  popped-Taken free = record {
    backing = record {
      free_once = b.free_once;
      apart = b.apart;
      taken = b.taken;
      home = b.home;
      clean = b.clean;
    };
    shows = λ id i k u below. refl;
    fds = λ id. refl;
    swapfd = refl;
  }

  pub take_page-Taken :
      (p : ℕ) (s' : DemoBufferManager) → take_page os s ≡ some (p, s') → Taken Among s s'
  unfolding take_page
  take_page-Taken p s' e = elim (List-cases s.free_pages) [
    | inl full ↦
        swapped_out-Taken p s' (swap_out_page-SwapsOut os s p s' (rw (full, take_page) at e))
    | inr (q, rest, free) ↦
        let k = some_inj _ _ (rw (free, take_page) at e) in
        rw (← ap (λ (u : ℕ × DemoBufferManager). u.1) k) (popped-Taken rest)
  ]
