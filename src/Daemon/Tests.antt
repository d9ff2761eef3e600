-- ===== src/Daemon/Tests.antt =====
-- Command lines of the daemon.
use dasim.Base.{
  ℕ, suc, ◌+◌, ◌-◌, ◌*◌, ◌≡◌, ◌⊎◌, refl, ◌&&◌, none, some, List, [], ◌∷◌, leb, if◌then◌else◌,
}
use dasim.Demo.State.{construct}
use dasim.Daemon.{
  Text, Args, slash, Strtoul, Opt, dir_ram_opt, tmp, parse_args, start_manager, parse_size_t,
  parse_positional, take_opts, is_valid_dir,
}
use dasim.Daemon.Arguments.{Accepted, parse_args-decides}

-- strtoul() on decimal digits.
abbrev digits : ℕ → ℕ → Text → Strtoul
digits value read [] = record { value = value; errno = 0; endptr = read }
digits value read (c ∷ str) =
    let more = digits (value * 10 + (c - b'0')) (suc read) str in
    if leb b'0' c && leb c b'9' then more else record { value = value; errno = 0; endptr = read }

abbrev decimal : Text → Strtoul
decimal str = digits 0 0 str

abbrev numbers : List Text
numbers = (b'1' ∷ b'6' ∷ []) ∷ (b'8' ∷ []) ∷ []

abbrev huge : Text
huge = slash ∷ b'h' ∷ slash ∷ []

-- --dir-ram /x --dir-ram /h/ 16 8
abbrev options : List Opt
options = dir_ram_opt (slash ∷ b'x' ∷ []) ∷ dir_ram_opt huge ∷ []

accepted :
    parse_args decimal options numbers
    ≡ some (record {
      nr_pages_ram = 16;
      nr_pages_swap = 8;
      dir_ram = huge;
      dir_swap = tmp;
      dir_pers = tmp;
    })
unfolding parse_args parse_positional parse_size_t take_opts is_valid_dir
accepted = refl

refused_one_page : parse_args decimal [] ((b'1' ∷ []) ∷ (b'8' ∷ []) ∷ []) ≡ none
unfolding parse_args parse_positional parse_size_t take_opts is_valid_dir
refused_one_page = refl

started : start_manager decimal 7 options numbers ≡ some (construct 7 16 8)
unfolding start_manager
started = rw (accepted, start_manager)

parse_args-decides_example :
    ((args : Args) × (parse_args decimal options numbers ≡ some args)
      × Accepted decimal options numbers args)
    ⊎ ((parse_args decimal options numbers ≡ none)
        × ((args : Args) → ¬ Accepted decimal options numbers args))
parse_args-decides_example = parse_args-decides decimal options numbers
