-- ===== src/Uffd.antt =====
-- The helpers of the experiments for userfaultfd: experiments/common.h, of
-- which xpmem-uffd-mm-test and xpmem-uffd-pf-test have copies. `none` is abort() or exit().
pub mod Resolved
mod Tests
use dasim.Base.{
  ℕ, ◌*◌, Bool, true, false, not, Option, none, some, List, [], ◌∷◌, if◌then◌else◌, ◌>>=◌,
}

-- The ioctl() calls on the descriptor, and the mmap() of the page of zeros that is copied for a
-- huge page. The flags are UFFDIO_WRITEPROTECT_MODE_WP, UFFDIO_COPY_MODE_WP and
-- UFFDIO_ZEROPAGE_MODE_DONTWAKE; UFFDIO_CONTINUE has always UFFDIO_CONTINUE_MODE_DONTWAKE.
pub data Op : Type 0 where
  register : ℕ → ℕ → Bool → Bool → Op
  writeprotect : ℕ → ℕ → Bool → Op
  copy_page : ℕ → ℕ → Bool → Op
  zeropage : ℕ → ℕ → Bool → Op
  continue_page : ℕ → ℕ → Op
  wake : ℕ → ℕ → Op
  map_zeros : Op

-- Whether a call fails, after the calls before it, of which the last comes first.
abbrev pub Fails : Type 0
Fails = List Op → Op → Bool

-- `mapped` is whether the static pointer `zeropage` is set.
pub record State : Type 0 where
  pub mapped : Bool
  pub trace : List Op

abbrev pub do_op : Fails → State → Op → Option State
do_op fails s op = if fails s.trace op then none else some (record s { trace = op ∷ s.trace })

abbrev pub page_len : Bool → ℕ
page_len hugepages = if hugepages then 4096 * 512 else 4096

unfoldable pub uffd_register : Fails → State → ℕ → ℕ → Bool → Bool → Option State
uffd_register fails s addr len wp minor = do_op fails s (register addr len wp minor)

unfoldable pub uffd_wp : Fails → State → ℕ → ℕ → Option State
uffd_wp fails s addr len = do_op fails s (writeprotect addr len true)

unfoldable pub uffd_wup : Fails → State → ℕ → ℕ → Option State
uffd_wup fails s addr len = do_op fails s (writeprotect addr len false)

-- The first part of `uffd_zeropage_huge`.
unfoldable pub need_zeros : Fails → State → Option State
need_zeros fails s =
    if s.mapped
    then some s
    else (do_op fails s map_zeros >>= λ s'. some (record s' { mapped = true }))

unfoldable pub uffd_zeropage_huge : Fails → State → ℕ → Bool → Option State
unfolding need_zeros uffd_wp
uffd_zeropage_huge fails s addr wp = need_zeros fails s >>= λ s1.
    do_op fails s1 (copy_page addr (page_len true) wp) >>= λ s2.
    if wp then uffd_wp fails s2 addr (page_len true) else some s2

unfoldable pub uffd_zeropage_normal : Fails → State → ℕ → Bool → Bool → Option State
unfolding uffd_wp
uffd_zeropage_normal fails s addr wp dontwake =
    do_op fails s (zeropage addr (page_len false) dontwake) >>= λ s1.
    if wp then uffd_wp fails s1 addr (page_len false) else some s1

unfoldable pub uffd_zeropage : Fails → State → ℕ → Bool → Bool → Bool → Option State
unfolding uffd_zeropage_huge uffd_zeropage_normal
uffd_zeropage fails s addr wp hugepages dontwake =
    if hugepages
    then uffd_zeropage_huge fails s addr wp
    else uffd_zeropage_normal fails s addr wp dontwake

unfoldable pub uffd_wake : Fails → State → ℕ → Bool → Option State
uffd_wake fails s addr hugepages = do_op fails s (wake addr (page_len hugepages))

-- Its last call is the one that `uffd_wake` makes.
unfoldable pub uffd_continue : Fails → State → ℕ → Bool → Bool → Option State
unfolding uffd_wp
uffd_continue fails s addr wp hugepages =
    do_op fails s (continue_page addr (page_len hugepages)) >>= λ s1.
    (if wp then uffd_wp fails s1 addr (page_len hugepages) else some s1) >>= λ s2.
    do_op fails s2 (wake addr (page_len hugepages))

-- The flags of a page fault: UFFD_PAGEFAULT_FLAG_WP, _MINOR and _WRITE.
pub record Flags : Type 0 where
  pub wp : Bool
  pub minor : Bool
  pub write : Bool

pub data Msg : Type 0 where
  pagefault : Flags → ℕ → Msg
  other_event : Msg

-- One round of the loop of `default_handle_uffd`.
unfoldable pub handle_msg : Fails → Bool → State → Msg → Option State
unfolding uffd_wup uffd_continue uffd_zeropage
handle_msg fails hugepages s other_event = some s
handle_msg fails hugepages s (pagefault flags addr) =
    (if flags.wp then uffd_wup fails s addr (page_len hugepages) else some s) >>= λ s1.
    (if flags.minor then uffd_continue fails s1 addr true hugepages else some s1) >>= λ s2.
    if flags.wp
    then some s2
    else if flags.minor
    then some s2
    else uffd_zeropage fails s2 addr (not flags.write) hugepages false

-- The loop, over the messages that uffd_read() returns.
unfoldable pub default_handle_uffd : Fails → Bool → List Msg → State → Option State
unfolding handle_msg
default_handle_uffd fails hugepages [] s = some s
default_handle_uffd fails hugepages (msg ∷ msgs) s =
    handle_msg fails hugepages s msg >>= λ s'. default_handle_uffd fails hugepages msgs s'
