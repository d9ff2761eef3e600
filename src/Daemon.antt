-- ===== src/Daemon.antt =====
-- The start of the daemon: damanager/src/main.cc.
pub mod OptionValues
pub mod Directories
pub mod Numbers
pub mod Arguments
mod Tests
use dasim.Base.{
  ℕ, ◌-◌, ◌==◌, Bool, true, false, not, ◌&&◌, ◌||◌, Option, none, some, List, [], ◌∷◌, length,
  get_elem?, ltb, if◌then◌else◌,
}
use dasim.Demo.State.{DemoBufferManager, construct}

-- A string without its final zero.
abbrev pub Text : Type 0
Text = List ℕ

pub record Args : Type 0 where
  pub nr_pages_ram : ℕ
  pub nr_pages_swap : ℕ
  pub dir_ram : Text
  pub dir_swap : Text
  pub dir_pers : Text

abbrev pub slash : ℕ
slash = b'/'

abbrev pub has_slash : Option ℕ → Bool
has_slash none = false
has_slash (some c) = c == slash

unfoldable pub is_valid_dir : Text → Bool
is_valid_dir path =
    let l = length path in
    not (l == 0) && (has_slash (get_elem? path 0) && has_slash (get_elem? path (l - 1)))

-- What strtoul() returns, what it sets errno to, and how many characters it read.
pub record Strtoul : Type 0 where
  pub value : ℕ
  pub errno : ℕ
  pub endptr : ℕ

-- The result, and what `out` is set to.
unfoldable pub parse_size_t : (Text → Strtoul) → Text → Bool × ℕ
parse_size_t strtoul str =
    let r = strtoul str in
    let parsed =
      if not (r.errno == 0)
      then false
      else if r.endptr == 0 || not (r.endptr == length str)
      then false
      else true in
    (parsed, r.value)

-- What getopt_long() returns, with optarg: 0, the options 1 to 3, 'h', '?', or anything else.
pub data Opt : Type 0 where
  zero_opt : Opt
  dir_ram_opt dir_swap_opt dir_pers_opt : Text → Opt
  help_opt : Opt
  unknown_opt : Opt
  other_opt : Opt

-- The local variables of the loop of `parse_args`.
pub record Options : Type 0 where
  pub dir_ram : Option Text
  pub dir_swap : Option Text
  pub dir_pers : Option Text
  pub help : Bool
  pub error : Bool

unfoldable pub take_opt : Options → Opt → Options
take_opt o zero_opt = o
take_opt o (dir_ram_opt optarg) = record o { dir_ram = some optarg }
take_opt o (dir_swap_opt optarg) = record o { dir_swap = some optarg }
take_opt o (dir_pers_opt optarg) = record o { dir_pers = some optarg }
take_opt o help_opt = record o { help = true }
take_opt o unknown_opt = record o { help = true }
take_opt o other_opt = record o { error = true }

unfoldable pub take_opts : Options → List Opt → Options
unfolding take_opt
take_opts o [] = o
take_opts o (opt ∷ opts) = take_opts (take_opt o opt) opts

abbrev pub no_options : Options
no_options = record {
  dir_ram = none;
  dir_swap = none;
  dir_pers = none;
  help = false;
  error = false;
}

-- "/dev/shm/" and "/tmp/"
abbrev pub dev_shm : Text
dev_shm = slash ∷ b'd' ∷ b'e' ∷ b'v' ∷ slash ∷ b's' ∷ b'h' ∷ b'm' ∷ slash ∷ []

abbrev pub tmp : Text
tmp = slash ∷ b't' ∷ b'm' ∷ b'p' ∷ slash ∷ []

abbrev pub or_default : Option Text → Text → Text
or_default none dir = dir
or_default (some dir) _ = dir

-- The positional arguments, argv from optind on: whether they are in error, and the two numbers.
unfoldable pub parse_positional : (Text → Strtoul) → List Text → Bool × ℕ × ℕ
parse_positional strtoul [] = (true, 0, 0)
parse_positional strtoul (ram ∷ []) = (true, 0, 0)
parse_positional strtoul (ram ∷ swap ∷ rest) =
    let r = parse_size_t strtoul ram in
    let s = parse_size_t strtoul swap in ((not r.0 || ltb r.1 2) || not s.0, r.1, s.1)

-- `parse_args` from what getopt_long() returned, call by call, and the arguments that it left.
unfoldable pub parse_args : (Text → Strtoul) → List Opt → List Text → Option Args
parse_args strtoul opts rest =
    let o = take_opts no_options opts in
    let p = parse_positional strtoul rest in
    let dir_ram = or_default o.dir_ram dev_shm in
    let dir_swap = or_default o.dir_swap tmp in
    let dir_pers = or_default o.dir_pers tmp in
    let invalid =
      not (is_valid_dir dir_ram) || (not (is_valid_dir dir_swap) || not (is_valid_dir dir_pers)) in
    if o.help || ((o.error || p.0) || invalid)
    then none
    else some (record {
      nr_pages_ram = p.1;
      nr_pages_swap = p.2;
      dir_ram = dir_ram;
      dir_swap = dir_swap;
      dir_pers = dir_pers;
    })

-- The manager that `main` makes, where the descriptor of the swap file is `swapfd`; `none` is
-- EXIT_FAILURE.
unfoldable pub start_manager :
    (Text → Strtoul) → ℕ → List Opt → List Text → Option DemoBufferManager
start_manager strtoul swapfd opts rest = elim (parse_args strtoul opts rest) [
  | none ↦ none
  | some args ↦ some (construct swapfd args.nr_pages_ram args.nr_pages_swap)
]
