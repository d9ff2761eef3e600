-- ===== src/Vfs/Names.antt =====
-- The names of files, and the ids that they become.
use dasim.Base.{
  ℕ, zero, suc, ◌+◌, ◌≤◌, ◌<◌, ◌≡◌, ◌∙◌, refl, sym, ap, List, [], ◌∷◌, ◌++◌, length, ◌⊎◌, inl, inr,
  arith,
}
use dasim.Vfs.{prefix_word, path_to_id, demo_full_pathname}

-- The bytes of a path: neither zero nor more than a byte.
abbrev pub IsPath : List ℕ → Type 0
IsPath [] = Unit
IsPath (x ∷ path) = (1 ≤ x) × (x < 256) × IsPath path

prefix_word-inj :
    (n : ℕ) (a b : List ℕ)
    → IsPath a
    → IsPath b
    → length a ≤ n
    → length b ≤ n
    → prefix_word n a ≡ prefix_word n b
    → a ≡ b
unfolding prefix_word
prefix_word-inj n [] [] pa pb la lb e = refl
prefix_word-inj zero [] (y ∷ b) pa pb la lb e = absurd (omega (arith, lb))
prefix_word-inj zero (x ∷ a) b pa pb la lb e = absurd (omega (arith, la))
prefix_word-inj (suc n) [] (y ∷ b) pa (lo, hi, pb) la lb e = absurd (omega (arith, e, lo))
prefix_word-inj (suc n) (x ∷ a) [] (lo, hi, pa) pb la lb e = absurd (omega (arith, e, lo))
prefix_word-inj (suc n) (x ∷ a) (y ∷ b) (_, hi, pa) (_, hi', pb) la lb e =
    let head : x ≡ y = omega (arith, e, hi, hi') in
    let rest =
      prefix_word-inj n a b pa pb (omega (arith, la)) (omega (arith, lb))
        (omega (arith, e, head)) in
    rw (head, rest)

-- Two paths of at most 8 bytes become one id only if they are the same path.
pub path_to_id-inj :
    (a b : List ℕ)
    → IsPath a
    → IsPath b
    → length a ≤ 8
    → length b ≤ 8
    → path_to_id a ≡ path_to_id b
    → a ≡ b
unfolding path_to_id
path_to_id-inj a b pa pb la lb e = prefix_word-inj 8 a b pa pb la lb e

prefix_word-append :
    (n : ℕ) (a rest : List ℕ) → length a ≡ n → prefix_word n (a ++ rest) ≡ prefix_word n a
unfolding prefix_word
prefix_word-append zero a rest len = refl
prefix_word-append (suc n) [] rest len = absurd (omega (arith, len))
prefix_word-append (suc n) (x ∷ a) rest len =
    omega (arith, prefix_word-append n a rest (omega (arith, len)))

-- What follows the first 8 bytes of a path does not matter: a database whose path has 8 bytes or
-- more has the same id as its journal, and as every other path that starts with those bytes.
pub path_to_id-ignores :
    (a rest rest' : List ℕ) → length a ≡ 8 → path_to_id (a ++ rest) ≡ path_to_id (a ++ rest')
unfolding path_to_id
path_to_id-ignores a rest rest' len =
    prefix_word-append 8 a rest len ∙ sym (prefix_word-append 8 a rest' len)

-- `demoFullPathname` copies any path, relative or not, as it is: it gives a path that ends within
-- its buffer, the whole path if that fits there with its final zero, and else the part that does.
-- This takes that the buffer has a byte.
pub demo_full_pathname-fits :
    (path : List ℕ) (out : ℕ)
    → 1 ≤ out
    → (length (demo_full_pathname path out) < out)
      × ((rest : List ℕ) × (path ≡ demo_full_pathname path out ++ rest)
          × ((rest ≡ []) ⊎ (length (demo_full_pathname path out) + 1 ≡ out)))
unfolding demo_full_pathname
demo_full_pathname-fits [] out positive = (omega (arith, positive), ([], refl, inl refl))
demo_full_pathname-fits (x ∷ path) zero positive = absurd (omega (arith, positive))
demo_full_pathname-fits (x ∷ path) (suc zero) positive = (omega arith, (x ∷ path, refl, inr refl))
demo_full_pathname-fits (x ∷ path) (suc (suc out)) positive =
    let (short, (rest, is, end)) = demo_full_pathname-fits path (suc out) (omega arith) in
    (
      omega (arith, short),
      (
        rest,
        ap (λ p. x ∷ p) is,
        elim end [ inl whole ↦ inl whole | inr full ↦ inr (omega (arith, full)) ],
      ),
    )
