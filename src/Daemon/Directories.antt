-- ===== src/Daemon/Directories.antt =====
-- The paths that `is_valid_dir` takes.
use dasim.Base.{
  ℕ, suc, ◌-◌, ◌==◌, ◌≡◌, ◌⊎◌, inl, inr, refl, ap, Bool, true, false, not, ◌&&◌, Option, none, some,
  some_inj, [], ◌∷◌, ◌++◌, length, get_elem?, arith, ne→==,
}
use dasim.Daemon.{Text, slash, has_slash, is_valid_dir}

-- A path that starts and ends with a slash.
abbrev pub IsDir : Text → Type 0
IsDir path = (path ≡ slash ∷ []) ⊎ ((middle : Text) × (path ≡ slash ∷ (middle ++ slash ∷ [])))

last_slash :
    (x : ℕ) (xs : Text)
    → get_elem? (x ∷ xs) (length xs) ≡ some slash
    → (middle : Text) × (x ∷ xs ≡ middle ++ slash ∷ [])
last_slash x [] e = ([], ap (λ c. c ∷ []) (some_inj _ _ e))
last_slash x (y ∷ xs) e = let (middle, is) = last_slash y xs e in (x ∷ middle, ap (λ cs. x ∷ cs) is)

get_elem?-last : (middle : Text) (c : ℕ) → get_elem? (middle ++ c ∷ []) (length middle) ≡ some c
get_elem?-last [] c = refl
get_elem?-last (x ∷ middle) c = get_elem?-last middle c

length-last : (middle : Text) (c : ℕ) → length (middle ++ c ∷ []) ≡ suc (length middle)
length-last [] c = refl
length-last (x ∷ middle) c = ap suc (length-last middle c)

slash_at : (c : Option ℕ) → has_slash c ≡ true → c ≡ some slash
slash_at none e = absurd (cc)
slash_at (some c) e = ap some (ground (arith, e))

pub is_valid_dir-IsDir : (path : Text) → is_valid_dir path ≡ true → IsDir path
unfolding is_valid_dir
is_valid_dir-IsDir [] e = absurd (cc)
is_valid_dir-IsDir (x ∷ []) e = inl (ap (λ c. c ∷ []) (ground (arith, e)))
is_valid_dir-IsDir (x ∷ y ∷ rest) e =
    let at_end : suc (suc (length rest)) - 1 ≡ suc (length rest) = omega arith in
    let (_, ends) =
      both (not (suc (suc (length rest)) == 0))
        ((x == slash) && has_slash (get_elem? (y ∷ rest) (length rest))) (rw (at_end) at e) in
    let (first, last) = both (x == slash) _ ends in
    let (middle, is) = last_slash y rest (slash_at _ last) in
    inr (middle, rw (some_inj _ _ (slash_at (some x) first), is))
  where
    both : (a b : Bool) → (a && b) ≡ true → (a ≡ true) × (b ≡ true)
    both true b h = (refl, h)
    both false b h = absurd (cc)

pub IsDir-is_valid_dir : (path : Text) → IsDir path → is_valid_dir path ≡ true
unfolding is_valid_dir
IsDir-is_valid_dir path (inl is) = rw is
IsDir-is_valid_dir path (inr (middle, is)) =
    let at_end : suc (suc (length middle)) - 1 ≡ suc (length middle) = omega arith in
    rw (is, length-last middle slash, at_end, get_elem?-last middle slash)
      (ap (λ (b : Bool). not b && true)
        (ne→== (suc (suc (length middle))) 0 (λ e. omega (arith, e))))
