-- ===== src/Uffd/Resolved.antt =====
-- What the default handler does for the pages that it gets faults for.
use dasim.Base.{
  ℕ, ◌≡◌, ◌∙◌, inl, inr, refl, ap, Bool, true, false, not, some, List, [], ◌∷◌, if◌then◌else◌,
  ◌>>=◌, Option-cases, ◌++◌,
}
use dasim.Uffd.{
  Op, writeprotect, copy_page, zeropage, continue_page, wake, map_zeros, Fails, State, page_len,
  uffd_zeropage, uffd_continue, uffd_wup, Flags, Msg, pagefault, other_event, handle_msg,
  default_handle_uffd, uffd_zeropage_huge, uffd_zeropage_normal, need_zeros, uffd_wp,
}

-- A page as the kernel sees it: whether it is mapped and write-protected, and whether a thread
-- waits for it.
pub record Page : Type 0 where
  pub mapped : Bool
  pub protected : Bool
  pub waiting : Bool

-- What the manual of userfaultfd says of the calls, for the page at the address that they name and
-- for either size of it: UFFDIO_WRITEPROTECT without its flag, UFFDIO_COPY, UFFDIO_ZEROPAGE
-- without its flag and UFFDIO_WAKE wake the threads that wait; no call makes a thread wait.
pub record Documented (effect : ℕ → Op → Page → Page) : Type 0 where
  pub unprotects :
      (addr : ℕ) (huge : Bool) (page : Page)
      → effect addr (writeprotect addr (page_len huge) false) page
        ≡ record page { protected = false; waiting = false }
  pub protects :
      (addr : ℕ) (huge : Bool) (page : Page)
      → effect addr (writeprotect addr (page_len huge) true) page ≡ record page { protected = true }
  pub copies :
      (addr : ℕ) (wp : Bool) (page : Page)
      → effect addr (copy_page addr (page_len true) wp) page
        ≡ record { mapped = true; protected = wp; waiting = false }
  pub zeroes :
      (addr : ℕ) (page : Page)
      → effect addr (zeropage addr (page_len false) false) page
        ≡ record { mapped = true; protected = false; waiting = false }
  pub continues :
      (addr : ℕ) (huge : Bool) (page : Page)
      → effect addr (continue_page addr (page_len huge)) page
        ≡ record page { mapped = true; protected = false }
  pub wakes :
      (addr : ℕ) (huge : Bool) (page : Page)
      → effect addr (wake addr (page_len huge)) page ≡ record page { waiting = false }
  pub elsewhere : (addr : ℕ) (page : Page) → effect addr map_zeros page ≡ page
  pub quiet :
      (addr : ℕ) (op : Op) (page : Page)
      → page.waiting ≡ false
      → (effect addr op page).waiting ≡ false

-- The page after all calls of a trace, whose last call comes first.
abbrev pub replay : (ℕ → Op → Page → Page) → ℕ → List Op → Page → Page
replay effect addr [] page = page
replay effect addr (op ∷ ops) page = effect addr op (replay effect addr ops page)

-- What a fault asks for: a mapped page, protected unless it is there and was protected, or new and
-- written to.
abbrev pub resolved : Flags → Page → Page
resolved flags page = record {
  mapped = if flags.minor then true else (if flags.wp then page.mapped else true);
  protected = if flags.minor then true else (if flags.wp then false else not flags.write);
  waiting = false;
}

-- No thread waits for a page after `s'` that did not after `s`.
abbrev Quiet : (ℕ → Op → Page → Page) → State → State → Type 0
Quiet effect s s' =
    (addr : ℕ) (page : Page)
    → (replay effect addr s.trace page).waiting ≡ false
    → (replay effect addr s'.trace page).waiting ≡ false

module _ (effect : ℕ → Op → Page → Page) (d : Documented effect) (fails : Fails)
    (works : (trace : List Op) (op : Op) → fails trace op ≡ false) where
  -- One message is served, and its page is resolved.
  abbrev Served : Bool → State → Flags → ℕ → Type 0
  Served hugepages s flags addr =
      (s' : State) × (handle_msg fails hugepages s (pagefault flags addr) ≡ some s')
      × ((page : Page)
          → replay effect addr s'.trace page ≡ resolved flags (replay effect addr s.trace page))
      × Quiet effect s s'

  -- A fault with the flag WP, MINOR or both.
  flagged :
      (both minor write hugepages mapped : Bool) (trace : List Op) (addr : ℕ)
      → Served hugepages
          (record { mapped = mapped; trace = trace })
          (record { wp = if minor then both else true; minor = minor; write = write })
          addr
  unfolding handle_msg uffd_wup uffd_continue uffd_wp
  flagged true true write hugepages mapped trace addr =
      let len = page_len hugepages in
      (
        record {
          mapped = mapped;
          trace =
              wake addr len
              ∷ writeprotect addr len true
              ∷ continue_page addr len
              ∷ writeprotect addr len false
              ∷ trace;
        },
        simp works,
        λ page. simp (
          d.wakes addr hugepages,
          d.protects addr hugepages,
          d.continues addr hugepages,
          d.unprotects addr hugepages,
        ),
        λ at page q. d.quiet at _ _ (d.quiet at _ _ (d.quiet at _ _ (d.quiet at _ _ q))),
      )
  flagged false true write hugepages mapped trace addr =
      let len = page_len hugepages in
      (
        record {
          mapped = mapped;
          trace = wake addr len ∷ writeprotect addr len true ∷ continue_page addr len ∷ trace;
        },
        simp works,
        λ page.
            simp (d.wakes addr hugepages, d.protects addr hugepages, d.continues addr hugepages),
        λ at page q. d.quiet at _ _ (d.quiet at _ _ (d.quiet at _ _ q)),
      )
  flagged both false write hugepages mapped trace addr =
      let len = page_len hugepages in
      (
        record { mapped = mapped; trace = writeprotect addr len false ∷ trace },
        simp works,
        λ page. simp (d.unprotects addr hugepages),
        λ at page q. d.quiet at _ _ q,
      )

  -- A fault on a page that is missing.
  missing_small :
      (write mapped : Bool) (trace : List Op) (addr : ℕ)
      → Served false
          (record { mapped = mapped; trace = trace })
          (record { wp = false; minor = false; write = write })
          addr
  unfolding handle_msg uffd_zeropage uffd_zeropage_normal uffd_wp
  missing_small true mapped trace addr = (
    record { mapped = mapped; trace = zeropage addr (page_len false) false ∷ trace },
    simp works,
    λ page. simp (d.zeroes addr),
    λ at page q. d.quiet at _ _ q,
  )
  missing_small false mapped trace addr = (
    record {
      mapped = mapped;
      trace =
          writeprotect addr (page_len false) true ∷ zeropage addr (page_len false) false ∷ trace;
    },
    simp works,
    λ page. simp (d.protects addr false, d.zeroes addr),
    λ at page q. d.quiet at _ _ (d.quiet at _ _ q),
  )

  missing_huge :
      (write mapped : Bool) (trace : List Op) (addr : ℕ)
      → Served true
          (record { mapped = mapped; trace = trace })
          (record { wp = false; minor = false; write = write })
          addr
  unfolding handle_msg uffd_zeropage uffd_zeropage_huge need_zeros uffd_wp
  missing_huge true true trace addr = (
    record { mapped = true; trace = copy_page addr (page_len true) false ∷ trace },
    simp works,
    λ page. simp (d.copies addr),
    λ at page q. d.quiet at _ _ q,
  )
  missing_huge true false trace addr = (
    record { mapped = true; trace = copy_page addr (page_len true) false ∷ map_zeros ∷ trace },
    simp works,
    λ page. simp (d.copies addr),
    λ at page q. d.quiet at _ _ (d.quiet at _ _ q),
  )
  missing_huge false true trace addr = (
    record {
      mapped = true;
      trace = writeprotect addr (page_len true) true ∷ copy_page addr (page_len true) true ∷ trace;
    },
    simp works,
    λ page. simp (d.protects addr true, d.copies addr),
    λ at page q. d.quiet at _ _ (d.quiet at _ _ q),
  )
  missing_huge false false trace addr = (
    record {
      mapped = true;
      trace =
          writeprotect addr (page_len true) true
          ∷ copy_page addr (page_len true) true
          ∷ map_zeros
          ∷ trace;
    },
    simp works,
    λ page. simp (d.protects addr true, d.copies addr),
    λ at page q. d.quiet at _ _ (d.quiet at _ _ (d.quiet at _ _ q)),
  )

  served :
      (wp minor write hugepages : Bool) (s : State) (addr : ℕ)
      → Served hugepages s (record { wp = wp; minor = minor; write = write }) addr
  served wp true write hugepages s addr = flagged wp true write hugepages s.mapped s.trace addr
  served true false write hugepages s addr =
      flagged true false write hugepages s.mapped s.trace addr
  served false false write true s addr = missing_huge write s.mapped s.trace addr
  served false false write false s addr = missing_small write s.mapped s.trace addr

  msg_served :
      (hugepages : Bool) (s : State) (msg : Msg)
      → (s' : State) × (handle_msg fails hugepages s msg ≡ some s') × Quiet effect s s'
  unfolding handle_msg
  msg_served hugepages s other_event = (s, refl, λ addr page quiet. quiet)
  msg_served hugepages s (pagefault flags addr) =
      let (s', done, _, quiet) = served flags.wp flags.minor flags.write hugepages s addr in
      (s', done, quiet)

  all_served :
      (hugepages : Bool) (msgs : List Msg) (s : State)
      → (s' : State) × (default_handle_uffd fails hugepages msgs s ≡ some s') × Quiet effect s s'
  unfolding default_handle_uffd
  all_served hugepages [] s = (s, refl, λ addr page quiet. quiet)
  all_served hugepages (msg ∷ msgs) s =
      let (t, done, quiet) = msg_served hugepages s msg in
      let (u, rest, quiet') = all_served hugepages msgs t in
      (u, rw done rest, λ addr page q. quiet' addr page (quiet addr page q))

default_handle_uffd-append :
    (fails : Fails) (hugepages : Bool) (a b : List Msg) (s : State)
    → default_handle_uffd fails hugepages (a ++ b) s
      ≡ (default_handle_uffd fails hugepages a s >>= default_handle_uffd fails hugepages b)
unfolding default_handle_uffd
default_handle_uffd-append fails hugepages [] b s = refl
default_handle_uffd-append fails hugepages (msg ∷ a) b s =
    elim (Option-cases (handle_msg fails hugepages s msg)) [
      | inl nothing ↦ rw nothing
      | inr (t, is) ↦ rw is (default_handle_uffd-append fails hugepages a b t)
    ]

-- The default handler of the tests resolves a fault, if no call fails and the kernel does what the
-- manual of userfaultfd says: it returns, and then the page at the address is mapped, unless the
-- fault was one for write protection only; it is write-protected just where the fault was minor, or
-- missing and only a read; and no thread waits for it any more.
pub handle_msg-resolves :
    (effect : ℕ → Op → Page → Page) (fails : Fails) (hugepages : Bool) (s : State) (flags : Flags)
    (addr : ℕ)
    → Documented effect
    → ((trace : List Op) (op : Op) → fails trace op ≡ false)
    → (s' : State) × (handle_msg fails hugepages s (pagefault flags addr) ≡ some s')
      × ((page : Page)
          → replay effect addr s'.trace page ≡ resolved flags (replay effect addr s.trace page))
handle_msg-resolves effect fails hugepages s flags addr d works =
    let (s', done, is, _) =
      served effect d fails works flags.wp flags.minor flags.write hugepages s addr in
    (s', done, is)

-- The default handler leaves no thread waiting, if no call fails and the kernel does what the manual
-- of userfaultfd says: whatever messages come before and after a page fault, it takes them all, and
-- at the end no thread waits for the page of the fault.
pub default_handle_uffd-wakes :
    (effect : ℕ → Op → Page → Page) (fails : Fails) (hugepages : Bool) (before after : List Msg)
    (flags : Flags) (addr : ℕ) (s : State)
    → Documented effect
    → ((trace : List Op) (op : Op) → fails trace op ≡ false)
    → (s' : State) × (default_handle_uffd fails hugepages (before ++ pagefault flags addr ∷ after) s
        ≡ some s')
      × ((page : Page) → (replay effect addr s'.trace page).waiting ≡ false)
unfolding default_handle_uffd
default_handle_uffd-wakes effect fails hugepages before after flags addr s d works =
    let (t, first, _) = all_served effect d fails works hugepages before s in
    let (u, fault, is, _) =
      served effect d fails works flags.wp flags.minor flags.write hugepages t addr in
    let (s', last, quiet) = all_served effect d fails works hugepages after u in
    (
      s',
      default_handle_uffd-append fails hugepages before (pagefault flags addr ∷ after) s
          ∙ rw (first, fault) last,
      λ page. quiet addr page (ap (λ (p : Page). p.waiting) (is page)),
    )
