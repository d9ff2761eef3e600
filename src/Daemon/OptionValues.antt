-- ===== src/Daemon/OptionValues.antt =====
-- The loop of `parse_args` over the options.
use dasim.Base.{◌≡◌, ◌∙◌, refl, ap, true, false, Option, none, some, List, [], ◌∷◌, arith}
use dasim.Daemon.{
  Text, Opt, zero_opt, dir_ram_opt, dir_swap_opt, dir_pers_opt, help_opt, unknown_opt, other_opt,
  Options, take_opt, take_opts, or_default,
}

-- What an option says of each variable.
abbrev pub ram_of : Opt → Option Text
ram_of (dir_ram_opt dir) = some dir
ram_of _ = none

abbrev pub swap_of : Opt → Option Text
swap_of (dir_swap_opt dir) = some dir
swap_of _ = none

abbrev pub pers_of : Opt → Option Text
pers_of (dir_pers_opt dir) = some dir
pers_of _ = none

-- The last option that says something counts.
abbrev pub last_of : (Opt → Option Text) → List Opt → Text → Text
last_of says [] dir = dir
last_of says (opt ∷ opts) dir = last_of says opts (or_default (says opt) dir)

-- None of the options asks for help or is wrong.
abbrev pub Plain : List Opt → Type 0
Plain [] = Unit
Plain (help_opt ∷ opts) = ⊥
Plain (unknown_opt ∷ opts) = ⊥
Plain (other_opt ∷ opts) = ⊥
Plain (zero_opt ∷ opts) = Plain opts
Plain (dir_ram_opt dir ∷ opts) = Plain opts
Plain (dir_swap_opt dir ∷ opts) = Plain opts
Plain (dir_pers_opt dir ∷ opts) = Plain opts

-- The loop keeps the last of the options that set a variable.
pub take_opts-last :
    (field : Options → Option Text) (says : Opt → Option Text)
    → ((o : Options) (opt : Opt) (d : Text)
        → or_default (field (take_opt o opt)) d ≡ or_default (says opt) (or_default (field o) d))
    → (opts : List Opt) (o : Options) (d : Text)
    → or_default (field (take_opts o opts)) d ≡ last_of says opts (or_default (field o) d)
unfolding take_opts
take_opts-last field says step [] o d = refl
take_opts-last field says step (opt ∷ opts) o d =
    take_opts-last field says step opts (take_opt o opt) d ∙ ap (last_of says opts) (step o opt d)

pub ram_step :
    (o : Options) (opt : Opt) (d : Text)
    → or_default (take_opt o opt).dir_ram d ≡ or_default (ram_of opt) (or_default o.dir_ram d)
unfolding take_opt
ram_step o (dir_ram_opt dir) d = refl
ram_step o _ d = refl

pub swap_step :
    (o : Options) (opt : Opt) (d : Text)
    → or_default (take_opt o opt).dir_swap d ≡ or_default (swap_of opt) (or_default o.dir_swap d)
unfolding take_opt
swap_step o (dir_swap_opt dir) d = refl
swap_step o _ d = refl

pub pers_step :
    (o : Options) (opt : Opt) (d : Text)
    → or_default (take_opt o opt).dir_pers d ≡ or_default (pers_of opt) (or_default o.dir_pers d)
unfolding take_opt
pers_step o (dir_pers_opt dir) d = refl
pers_step o _ d = refl

-- The flags stay down just where all options are plain.
abbrev Down : Options → Type 0
Down o = (o.help ≡ false) × (o.error ≡ false)

pub take_opts-Down : (o : Options) (opts : List Opt) → Down (take_opts o opts) → Down o × Plain opts
unfolding take_opts
take_opts-Down o [] d = (d, tt)
take_opts-Down o (zero_opt ∷ opts) d = take_opts-Down o opts d
take_opts-Down o (dir_ram_opt x ∷ opts) d = take_opts-Down (record o { dir_ram = some x }) opts d
take_opts-Down o (dir_swap_opt x ∷ opts) d = take_opts-Down (record o { dir_swap = some x }) opts d
take_opts-Down o (dir_pers_opt x ∷ opts) d = take_opts-Down (record o { dir_pers = some x }) opts d
take_opts-Down o (help_opt ∷ opts) d =
    absurd (ground (arith, (take_opts-Down (record o { help = true }) opts d).0.0))
take_opts-Down o (unknown_opt ∷ opts) d =
    absurd (ground (arith, (take_opts-Down (record o { help = true }) opts d).0.0))
take_opts-Down o (other_opt ∷ opts) d =
    absurd (ground (arith, (take_opts-Down (record o { error = true }) opts d).0.1))

pub Plain-Down : (o : Options) (opts : List Opt) → Plain opts → Down o → Down (take_opts o opts)
unfolding take_opts
Plain-Down o [] p d = d
Plain-Down o (zero_opt ∷ opts) p d = Plain-Down o opts p d
Plain-Down o (dir_ram_opt x ∷ opts) p d = Plain-Down (record o { dir_ram = some x }) opts p d
Plain-Down o (dir_swap_opt x ∷ opts) p d = Plain-Down (record o { dir_swap = some x }) opts p d
Plain-Down o (dir_pers_opt x ∷ opts) p d = Plain-Down (record o { dir_pers = some x }) opts p d
Plain-Down o (help_opt ∷ opts) p d = absurd p
Plain-Down o (unknown_opt ∷ opts) p d = absurd p
Plain-Down o (other_opt ∷ opts) p d = absurd p
