-- ===== src/Demo/PageIo/Transfers.antt =====
-- What the transfer loops of demo_buffer_manager.cc do to a whole page.
use mathlib.Core.Path.{fun_ext}
use dasim.Base.{
  ℕ, zero, suc, ◌+◌, ◌-◌, ◌*◌, ◌≤◌, ◌<◌, ◌≡◌, refl, sym, ap, ◌∙◌, some, arith, ltb, inl, inr,
  Bool-cases, add64,
}
use dasim.Types.{page_size}
use dasim.Demo.PageIo.{Bytes, blit, moved, Os, write_loop, read_loop, page_fuel, init_pages}

-- pwrite() writes at least one byte, and no more than it is asked to.
abbrev pub WritesMove : Os → Type 0
WritesMove os =
    (fd off n : ℕ) → 1 ≤ n → (m : ℕ) × (os.pwrite fd off n ≡ moved m) × (1 ≤ m) × (m ≤ n)

-- pread() reads all that it is asked for.
abbrev pub ReadsWhole : Os → Type 0
ReadsWhole os = (fd off n : ℕ) → os.pread fd off n ≡ moved n

blit-blit :
    (file mem : Bytes) (to from i m n : ℕ)
    → m ≤ n
    → blit (blit file (to + i) mem (from + i) m) (to + (i + m)) mem (from + (i + m)) (n - m)
      ≡ blit file (to + i) mem (from + i) n
blit-blit file mem to from i m n h = fun_ext (λ k. point k)
  where
    point :
        (k : ℕ)
        → blit (blit file (to + i) mem (from + i) m) (to + (i + m)) mem (from + (i + m)) (n - m) k
          ≡ blit file (to + i) mem (from + i) n k
    point k = ground (arith, ap mem)

blit_nothing : (file mem : Bytes) (to from : ℕ) → blit file to mem from 0 ≡ file
blit_nothing file mem to from = fun_ext (λ k. ground arith)

write_loop-moved :
    (os : Os) (fuel : ℕ) (mem : Bytes) (from fd to i m : ℕ) (file : Bytes)
    → i < page_size
    → os.pwrite fd (to + i) (page_size - i) ≡ moved m
    → write_loop os (suc fuel) mem from fd to i file
      ≡ write_loop os fuel mem from fd to (add64 i m) (blit file (to + i) mem (from + i) m)
unfolding write_loop
write_loop-moved os fuel mem from fd to i m file h e = rw e (ground arith)

write_loop-done :
    (os : Os) (fuel : ℕ) (mem : Bytes) (from fd to i : ℕ) (file : Bytes)
    → page_size ≤ i
    → write_loop os (suc fuel) mem from fd to i file ≡ some file
unfolding write_loop
write_loop-done os fuel mem from fd to i file h = ground arith

pub write_loop_lem :
    (os : Os) (mem : Bytes) (from fd to : ℕ)
    → WritesMove os
    → (fuel i n : ℕ) (file : Bytes) → i + n ≡ page_size
    → n < fuel
    → write_loop os fuel mem from fd to i file ≡ some (blit file (to + i) mem (from + i) n)
write_loop_lem os mem from fd to moves zero i n file e h = absurd (omega arith)
write_loop_lem os mem from fd to moves (suc fuel) i zero file e h =
    write_loop-done os fuel mem from fd to i file (omega arith)
    ∙ ap some (sym (blit_nothing file mem (to + i) (from + i)))
write_loop_lem os mem from fd to moves (suc fuel) i (suc n) file e h =
    let (m, p, lo, hi) = moves fd (to + i) (page_size - i) (omega arith) in
    let next : Bytes = blit file (to + i) mem (from + i) m in
    let at : add64 i m ≡ i + m = omega arith in
    write_loop-moved os fuel mem from fd to i m file (omega arith) p
    ∙ ap (λ j. write_loop os fuel mem from fd to j next) at
    ∙ write_loop_lem os mem from fd to moves fuel (i + m) (suc n - m) next (omega arith)
        (omega arith)
    ∙ ap some (blit-blit file mem to from i m (suc n) (omega arith))

-- Whatever the sizes of the single writes, as long as each moves at least one byte, the write loop
-- ends, and then one whole page of memory stands at its place in the file, and the rest of the
-- file is as before.
pub write_loop_page :
    (os : Os) (mem file : Bytes) (from fd to : ℕ)
    → WritesMove os
    → write_loop os page_fuel mem from fd to 0 file ≡ some (blit file to mem from page_size)
write_loop_page os mem file from fd to moves =
    write_loop_lem os mem from fd to moves page_fuel 0 page_size file (omega arith) (omega arith)
    ∙ let left : to + 0 ≡ to = omega arith in
      let right : from + 0 ≡ from = omega arith in rw (left, right)

read_loop-moved :
    (os : Os) (fuel fd : ℕ) (file : Bytes) (from i m : ℕ) (tmp : Bytes)
    → i < page_size
    → 1 ≤ m
    → os.pread fd (from + i) (page_size - i) ≡ moved m
    → read_loop os (suc fuel) fd file from i tmp
      ≡ read_loop os fuel fd file from (i + m) (blit tmp 0 file (from + i) m)
unfolding read_loop
read_loop-moved os fuel fd file from i m tmp h l e = rw e (ground arith)

read_loop-done :
    (os : Os) (fuel fd : ℕ) (file : Bytes) (from i : ℕ) (tmp : Bytes)
    → page_size ≤ i
    → read_loop os (suc fuel) fd file from i tmp ≡ some tmp
unfolding read_loop
read_loop-done os fuel fd file from i tmp h = ground arith

-- If one read brings the whole page, the temporary page is that page of the file.
pub read_loop_page :
    (os : Os) (fd : ℕ) (file tmp : Bytes) (from : ℕ)
    → ReadsWhole os
    → read_loop os page_fuel fd file from 0 tmp ≡ some (blit tmp 0 file from page_size)
read_loop_page os fd file tmp from whole =
    read_loop-moved os page_size fd file from 0 page_size tmp (omega arith) (omega arith)
      (whole fd (from + 0) page_size)
    ∙ read_loop-done os (page_size - 1) fd file from (0 + page_size) _ (omega arith)
    ∙ let right : from + 0 ≡ from = omega arith in rw right

-- A page that arrives in two reads ends up wrong: the second part lies over the first, so the
-- temporary page starts with the byte of the file where the second read began.
pub read_loop_in_two :
    (os : Os) (fd : ℕ) (file tmp : Bytes) (from m : ℕ)
    → 1 ≤ m
    → m < page_size
    → os.pread fd (from + 0) page_size ≡ moved m
    → os.pread fd (from + m) (page_size - m) ≡ moved (page_size - m)
    → (out : Bytes) × (read_loop os page_fuel fd file from 0 tmp ≡ some out)
      × (out 0 ≡ file (from + m))
read_loop_in_two os fd file tmp from m lo hi e f = (
  blit (blit tmp 0 file (from + 0) m) 0 file (from + (0 + m)) (page_size - m),
  read_loop-moved os page_size fd file from 0 m tmp (omega arith) lo e
      ∙ read_loop-moved os (page_size - 1) fd file from (0 + m) (page_size - m)
          (blit tmp 0 file (from + 0) m) (omega arith) (omega arith)
          (let z : 0 + m ≡ m = omega arith in rw z f)
      ∙ read_loop-done os (page_size - 2) fd file from (0 + m + (page_size - m)) _ (omega arith),
  ground (arith, ap file),
)

-- Where every pwrite() succeeds and moves some of the bytes that it is asked to, `init_file` ends,
-- fills the pages of the file with 'A', and leaves what lies outside them.
pub init_pages_lem :
    (os : Os) (fd : ℕ)
    → WritesMove os
    → (rounds i : ℕ) (file : Bytes)
    → (out : Bytes) × (init_pages os rounds i fd file ≡ some out)
      × ((k : ℕ) → i * page_size ≤ k → k < (i + rounds) * page_size → out k ≡ b'A')
      × ((k : ℕ) → k < i * page_size → out k ≡ file k)
      × ((k : ℕ) → (i + rounds) * page_size ≤ k → out k ≡ file k)
unfolding init_pages
init_pages_lem os fd moves zero i file =
    (file, refl, λ k lo hi. absurd (omega arith), λ k h. refl, λ k h. refl)
init_pages_lem os fd moves (suc rounds) i file =
    let page : Bytes = blit file (i * page_size) (λ _. b'A') 0 page_size in
    let (out, e, inside, before, after) = init_pages_lem os fd moves rounds (i + 1) page in
    (
      out,
      rw (write_loop_page os (λ _. b'A') file 0 fd (i * page_size) moves, init_pages) e,
      λ k lo hi. elim (Bool-cases (ltb k ((i + 1) * page_size))) [
        | inl p ↦ before k (ground arith) ∙ ground arith
        | inr p ↦ inside k (ground arith) (omega arith)
      ],
      λ k h. before k (omega arith) ∙ ground arith,
      λ k h. after k (omega arith) ∙ ground arith,
    )
