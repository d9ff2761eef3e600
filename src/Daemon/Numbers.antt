-- ===== src/Daemon/Numbers.antt =====
-- The numbers among the arguments of the daemon.
use dasim.Base.{ℕ, ◌≤◌, ◌≡◌, refl, true, false, List, [], ◌∷◌, length, arith}
use dasim.Daemon.{Text, Strtoul, parse_size_t, parse_positional}

-- A text that strtoul() reads to its end as `n`.
pub record Reads (strtoul : Text → Strtoul) (str : Text) (n : ℕ) : Type 0 where
  pub whole : (strtoul str).endptr ≡ length str
  pub something : 1 ≤ length str
  pub in_range : (strtoul str).errno ≡ 0
  pub value : (strtoul str).value ≡ n

-- parse_size_t() takes just the texts that strtoul() reads.
parse_size_t-Reads :
    (strtoul : Text → Strtoul) (str : Text)
    → (parse_size_t strtoul str).0 ≡ true
    → Reads strtoul str (parse_size_t strtoul str).1
unfolding parse_size_t
parse_size_t-Reads strtoul str e = record {
  whole = ground (arith, e);
  something = ground (arith, e);
  in_range = ground (arith, e);
  value = refl;
}

Reads-parse_size_t :
    (strtoul : Text → Strtoul) (str : Text) (n : ℕ)
    → Reads strtoul str n
    → ((parse_size_t strtoul str).0 ≡ true) × ((parse_size_t strtoul str).1 ≡ n)
unfolding parse_size_t
Reads-parse_size_t strtoul str n r = (ground (arith, r.whole, r.something, r.in_range), r.value)

-- The positional arguments are in order.
pub record Positional (strtoul : Text → Strtoul) (rest : List Text) (nr_ram nr_swap : ℕ)
    : Type 0 where
  pub ram : Text
  pub swap : Text
  pub others : List Text
  pub split : rest ≡ ram ∷ swap ∷ others
  pub reads_ram : Reads strtoul ram nr_ram
  pub enough : 2 ≤ nr_ram
  pub reads_swap : Reads strtoul swap nr_swap

pub parse_positional-Positional :
    (strtoul : Text → Strtoul) (rest : List Text)
    → let p = parse_positional strtoul rest in p.0 ≡ false → Positional strtoul rest p.1 p.2
unfolding parse_positional
parse_positional-Positional strtoul [] e = absurd (cc)
parse_positional-Positional strtoul (ram ∷ []) e = absurd (cc)
parse_positional-Positional strtoul (ram ∷ swap ∷ others) e =
    let r = parse_size_t strtoul ram in
    let s = parse_size_t strtoul swap in
    record {
      ram = ram;
      swap = swap;
      others = others;
      split = refl;
      reads_ram = parse_size_t-Reads strtoul ram (ground (arith, e));
      enough = ground (arith, e);
      reads_swap = parse_size_t-Reads strtoul swap (ground (arith, e));
    }

pub Positional-parse_positional :
    (strtoul : Text → Strtoul) (ram swap : Text) (others : List Text) (nr_ram nr_swap : ℕ)
    → Reads strtoul ram nr_ram
    → 2 ≤ nr_ram
    → Reads strtoul swap nr_swap
    → parse_positional strtoul (ram ∷ swap ∷ others) ≡ (false, nr_ram, nr_swap)
unfolding parse_positional
Positional-parse_positional strtoul ram swap others nr_ram nr_swap r enough s =
    let (read, value) = Reads-parse_size_t strtoul ram nr_ram r in
    let (read', value') = Reads-parse_size_t strtoul swap nr_swap s in
    rw (read, read', value, value') (ground (arith, enough))
