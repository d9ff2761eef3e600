-- ===== src/Daemon/Arguments.antt =====
-- Which command lines the daemon takes, and what it makes of them.
use dasim.Base.{
  ◌≤◌, ◌≡◌, ◌∙◌, ◌⊎◌, inl, inr, refl, sym, ap, Bool, true, false, not, ◌||◌, none, some, some_inj,
  List, ◌∷◌, arith, if_true, if_false, Bool-cases, Option-cases,
}
use dasim.Daemon.{
  Text, Args, is_valid_dir, Strtoul, Opt, Options, take_opts, no_options, dev_shm, tmp, or_default,
  parse_positional, parse_args,
}
use dasim.Daemon.OptionValues.{
  ram_of, swap_of, pers_of, last_of, Plain, take_opts-last, ram_step, swap_step, pers_step,
  take_opts-Down, Plain-Down,
}
use dasim.Daemon.Directories.{IsDir, is_valid_dir-IsDir, IsDir-is_valid_dir}
use dasim.Daemon.Numbers.{Reads, parse_positional-Positional, Positional-parse_positional}

-- A command line that is in order, and what it asks for.
pub record Accepted (strtoul : Text → Strtoul) (opts : List Opt) (rest : List Text) (args : Args)
    : Type 0 where
  pub plain : Plain opts
  pub ram : Text
  pub swap : Text
  pub others : List Text
  pub positional : rest ≡ ram ∷ swap ∷ others
  pub reads_ram : Reads strtoul ram args.nr_pages_ram
  pub enough : 2 ≤ args.nr_pages_ram
  pub reads_swap : Reads strtoul swap args.nr_pages_swap
  pub in_ram : args.dir_ram ≡ last_of ram_of opts dev_shm
  pub in_swap : args.dir_swap ≡ last_of swap_of opts tmp
  pub in_pers : args.dir_pers ≡ last_of pers_of opts tmp
  pub dirs : IsDir args.dir_ram × IsDir args.dir_swap × IsDir args.dir_pers

fine :
    (a b c d e f : Bool)
    → (a || ((b || c) || (not d || (not e || not f)))) ≡ false
    → (a ≡ false) × (b ≡ false) × (c ≡ false) × (d ≡ true) × (e ≡ true) × (f ≡ true)
fine a b c d e f h = ground (arith, h)

module _ (strtoul : Text → Strtoul) (opts : List Opt) (rest : List Text) (args : Args) where
  abbrev o : Options
  o = take_opts no_options opts

  parse_args-Accepted : parse_args strtoul opts rest ≡ some args → Accepted strtoul opts rest args
  unfolding parse_args
  parse_args-Accepted e =
      let p = parse_positional strtoul rest in
      let ram = is_valid_dir (or_default o.dir_ram dev_shm) in
      let swap = is_valid_dir (or_default o.dir_swap tmp) in
      let pers = is_valid_dir (or_default o.dir_pers tmp) in
      elim (Bool-cases (o.help || ((o.error || p.0) || (not ram || (not swap || not pers))))) [
        | inl bad ↦ absurd (ground (arith, sym (if_true _ _ _ bad) ∙ e))
        | inr good ↦
            let (help, error, read, in_ram, in_swap, in_pers) =
              fine o.help o.error p.0 ram swap pers good in
            let is = some_inj _ _ (sym (if_false _ _ _ good) ∙ e) in
            let pos = parse_positional-Positional strtoul rest read in
            rw (← is) (record {
              plain = (take_opts-Down no_options opts (help, error)).1;
              ram = pos.ram;
              swap = pos.swap;
              others = pos.others;
              positional = pos.split;
              reads_ram = pos.reads_ram;
              enough = pos.enough;
              reads_swap = pos.reads_swap;
              in_ram = take_opts-last (λ q. q.dir_ram) ram_of ram_step opts no_options dev_shm;
              in_swap = take_opts-last (λ q. q.dir_swap) swap_of swap_step opts no_options tmp;
              in_pers = take_opts-last (λ q. q.dir_pers) pers_of pers_step opts no_options tmp;
              dirs = (
                is_valid_dir-IsDir _ in_ram,
                is_valid_dir-IsDir _ in_swap,
                is_valid_dir-IsDir _ in_pers,
              );
            })
      ]

  Accepted-parse_args : Accepted strtoul opts rest args → parse_args strtoul opts rest ≡ some args
  unfolding parse_args
  Accepted-parse_args a =
      let (help, error) = Plain-Down no_options opts a.plain (refl, refl) in
      let ram : or_default o.dir_ram dev_shm ≡ args.dir_ram =
        take_opts-last (λ q. q.dir_ram) ram_of ram_step opts no_options dev_shm ∙ sym a.in_ram in
      let swap : or_default o.dir_swap tmp ≡ args.dir_swap =
        take_opts-last (λ q. q.dir_swap) swap_of swap_step opts no_options tmp ∙ sym a.in_swap in
      let pers : or_default o.dir_pers tmp ≡ args.dir_pers =
        take_opts-last (λ q. q.dir_pers) pers_of pers_step opts no_options tmp ∙ sym a.in_pers in
      let pos =
        ap (parse_positional strtoul) a.positional
        ∙ Positional-parse_positional strtoul a.ram a.swap a.others args.nr_pages_ram
            args.nr_pages_swap a.reads_ram a.enough a.reads_swap in
      rw (
        help,
        error,
        pos,
        ram,
        swap,
        pers,
        IsDir-is_valid_dir args.dir_ram a.dirs.0,
        IsDir-is_valid_dir args.dir_swap a.dirs.1,
        IsDir-is_valid_dir args.dir_pers a.dirs.2,
      )

-- `parse_args` decides which command lines are in order: it gives arguments that are those of the
-- command line, where no option asks for help or is wrong, two positional arguments are numbers
-- that strtoul() reads in full, the first of them at least 2, and the three directories, each the
-- last that an option sets or else its default, start and end with a slash; or it gives none, and
-- then no arguments are those of the command line.
pub parse_args-decides :
    (strtoul : Text → Strtoul) (opts : List Opt) (rest : List Text)
    → ((args : Args) × (parse_args strtoul opts rest ≡ some args) × Accepted strtoul opts rest args)
      ⊎ ((parse_args strtoul opts rest ≡ none)
          × ((args : Args) → ¬ Accepted strtoul opts rest args))
parse_args-decides strtoul opts rest = elim (Option-cases (parse_args strtoul opts rest)) [
  | inl nothing ↦ inr (
    nothing,
    λ args a. absurd (ground (arith, nothing, Accepted-parse_args strtoul opts rest args a)),
  )
  | inr (args, e) ↦ inl (args, e, parse_args-Accepted strtoul opts rest args e)
]
