-- ===== src/Uffd/Tests.antt =====
-- Messages for the default handler.
use dasim.Base.{
  Bool, ℕ, leb, ltb, ◌&&◌, ◌+◌, if◌then◌else◌, arith, ◌≡◌, refl, true, false, some, List, [], ◌∷◌,
  ◌++◌,
}
use dasim.Uffd.{
  copy_page, Op, writeprotect, zeropage, continue_page, wake, Fails, State, Flags, Msg, pagefault,
  other_event, handle_msg, default_handle_uffd,
}
use dasim.Uffd.Resolved.{
  Page, replay, resolved, Documented, handle_msg-resolves, default_handle_uffd-wakes,
}

abbrev works : Fails
works trace op = false

abbrev fresh : State
fresh = record { mapped = false; trace = [] }

abbrev reads : Flags
reads = record { wp = false; minor = false; write = false }

abbrev minor_fault : Flags
minor_fault = record { wp = false; minor = true; write = true }

abbrev messages : List Msg
messages = pagefault minor_fault 4096 ∷ other_event ∷ []

calls :
    default_handle_uffd works false (pagefault reads 8192 ∷ messages) fresh
    ≡ some (record {
      mapped = false;
      trace =
          wake 4096 4096
          ∷ writeprotect 4096 4096 true
          ∷ continue_page 4096 4096
          ∷ writeprotect 8192 4096 true
          ∷ zeropage 8192 4096 false
          ∷ [];
    })
unfolding default_handle_uffd
calls = refl

abbrev covers : ℕ → ℕ → ℕ → Bool
covers start len addr = leb start addr && ltb addr (start + len)

-- A kernel that does what the manual says.
abbrev effect : ℕ → Op → Page → Page
effect addr (writeprotect start len wp) page =
    if covers start len addr
    then record page { protected = wp; waiting = page.waiting && wp }
    else page
effect addr (copy_page start len wp) page =
    if covers start len addr
    then record { mapped = true; protected = wp; waiting = false }
    else page
effect addr (zeropage start len dontwake) page =
    if covers start len addr
    then record { mapped = true; protected = false; waiting = page.waiting && dontwake }
    else page
effect addr (continue_page start len) page =
    if covers start len addr then record page { mapped = true; protected = false } else page
effect addr (wake start len) page =
    if covers start len addr then record page { waiting = false } else page
effect addr _ page = page

effect_quiet :
    (addr : ℕ) (op : Op) (page : Page)
    → page.waiting ≡ false
    → (effect addr op page).waiting ≡ false
effect_quiet addr (writeprotect start len wp) page q = ground arith
effect_quiet addr _ page q = ground arith

effect-Documented : Documented effect
effect-Documented = record {
  unprotects = λ addr huge page. ground arith;
  protects = λ addr huge page. ground arith;
  copies = λ addr wp page. ground arith;
  zeroes = λ addr page. ground arith;
  continues = λ addr huge page. ground arith;
  wakes = λ addr huge page. ground arith;
  elsewhere = λ addr page. refl;
  quiet = effect_quiet;
}

handle_msg-resolves_example :
    (s' : State) × (handle_msg works true fresh (pagefault reads 0x200000) ≡ some s')
    × ((page : Page) → replay effect 0x200000 s'.trace page ≡ resolved reads page)
handle_msg-resolves_example =
    handle_msg-resolves effect works true fresh reads 0x200000 effect-Documented (λ trace op. refl)

default_handle_uffd-wakes_example :
    (s' : State) × (default_handle_uffd works false
        (messages ++ pagefault reads 8192 ∷ messages)
        fresh
      ≡ some s')
    × ((page : Page) → (replay effect 8192 s'.trace page).waiting ≡ false)
default_handle_uffd-wakes_example =
    default_handle_uffd-wakes effect works false messages messages reads 8192 fresh
      effect-Documented (λ trace op. refl)
