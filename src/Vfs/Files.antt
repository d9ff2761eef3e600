-- ===== src/Vfs/Files.antt =====
-- A region as a file: what reads and writes promise, and where they reach.
use dasim.Base.{
  ℕ, zero, suc, ◌+◌, ◌-◌, ◌^◌, ◌==◌, ◌≤◌, ◌<◌, ◌≡◌, ◌∙◌, refl, ap, true, ◌⊎◌, inl, inr, List, [],
  ◌∷◌, length, leb, if◌then◌else◌, Bool-cases, ==→eq, ==→ne, arith,
}
use dasim.Demo.PageIo.{Bytes}
use dasim.Demo.State.{update}
use dasim.Library.{Handle}
use dasim.Vfs.{
  Code, ok, ioerr_read, ioerr_write, DemoFile, load, read_bytes, write_bytes, max,
  test_access_valid, get_size, set_size, get_filecontent_addr, demo_read, demo_write,
  demo_file_size,
}
use dasim.Vfs.Words.{
  store-outside, load-store, write_bytes-outside, read_bytes-cong, read_bytes-write_bytes,
}

-- What a reader of the file sees: its length, and its bytes.
pub record File : Type 0 where
  pub len : ℕ
  pub byte : ℕ → ℕ

abbrev pub file_of : Bytes → DemoFile → File
file_of mem p = record { len = demo_file_size mem p; byte = λ k. mem (p.handle.addr + 16 + k) }

-- The bytes of a buffer that is written at `offset` over those of a file.
abbrev pub overwrite : (ℕ → ℕ) → ℕ → List ℕ → ℕ → ℕ
overwrite byte offset [] k = byte k
overwrite byte offset (x ∷ xs) k = if offset == k then x else overwrite byte (offset + 1) xs k

-- `n` bytes from `offset` on.
abbrev pub slice : (ℕ → ℕ) → ℕ → ℕ → List ℕ
slice byte offset zero = []
slice byte offset (suc n) = byte offset ∷ slice byte (offset + 1) n

overwrite-cong :
    (byte byte' : ℕ → ℕ) (offset : ℕ) (xs : List ℕ) (k : ℕ)
    → byte k ≡ byte' k
    → overwrite byte offset xs k ≡ overwrite byte' offset xs k
overwrite-cong byte byte' offset [] k same = same
overwrite-cong byte byte' offset (x ∷ xs) k same =
    ground (arith, overwrite-cong byte byte' (offset + 1) xs k same)

overwrite_below :
    (byte : ℕ → ℕ) (offset : ℕ) (xs : List ℕ) (k : ℕ)
    → k < offset
    → overwrite byte offset xs k ≡ byte k
overwrite_below byte offset [] k below = refl
overwrite_below byte offset (x ∷ xs) k below =
    ground (arith, below, overwrite_below byte (offset + 1) xs k)

write_bytes-overwrite :
    (mem : Bytes) (base offset : ℕ) (xs : List ℕ) (k : ℕ)
    → write_bytes mem (base + offset) xs (base + k) ≡ overwrite (λ i. mem (base + i)) offset xs k
unfolding write_bytes
write_bytes-overwrite mem base offset [] k = refl
write_bytes-overwrite mem base offset (x ∷ xs) k =
    let mem' : Bytes = update mem (base + offset) x in
    let next : base + offset + 1 ≡ base + (offset + 1) = omega arith in
    let step =
      ap (λ a. write_bytes mem' a xs (base + k)) next
      ∙ write_bytes-overwrite mem' base (offset + 1) xs k in
    elim (Bool-cases (offset == k)) [
      | inl here ↦
          let is = ==→eq offset k here in
          rw (here) (
            step
            ∙ overwrite_below (λ i. mem' (base + i)) (offset + 1) xs k (omega (arith, is))
            ∙ ground (arith, is))
      | inr other ↦
          let ne = ==→ne offset k other in
          rw (other) (
            step
            ∙ overwrite-cong (λ i. mem' (base + i)) (λ i. mem (base + i)) (offset + 1) xs k
                (ground (arith, ne)))
    ]

read_bytes-slice :
    (mem : Bytes) (base offset n : ℕ)
    → read_bytes mem (base + offset) n ≡ slice (λ i. mem (base + i)) offset n
unfolding read_bytes
read_bytes-slice mem base offset zero = refl
read_bytes-slice mem base offset (suc n) =
    let next : base + offset + 1 ≡ base + (offset + 1) = omega arith in
    rw (next, read_bytes-slice mem base (offset + 1) n)

valid_iff :
    (p : DemoFile) (n offset : ℕ) → test_access_valid p n offset ≡ leb (offset + n) p.handle.size
unfolding test_access_valid
valid_iff p n offset = ground arith

content_at :
    (handle : Handle) (offset : ℕ) → get_filecontent_addr handle offset ≡ handle.addr + 16 + offset
unfolding get_filecontent_addr
content_at handle offset = omega arith

-- A write of SQLite to a file either is refused with SQLITE_IOERR_WRITE, where the range ends after
-- the size of the region, and changes nothing, or succeeds, and then the file has the buffer over
-- its bytes from the offset on, is as long as it was or as the end of the buffer, and no memory
-- before the region or more than 16 bytes after it has changed. This takes that the offsets of
-- the region fit in a word.
pub demo_write-File :
    (mem : Bytes) (p : DemoFile) (buffer : List ℕ) (offset : ℕ)
    → p.handle.size < 2 ^ 63
    → demo_file_size mem p < 2 ^ 63
    → let r = demo_write mem p buffer offset in
      ((p.handle.size < offset + length buffer) × (r.0 ≡ ioerr_write) × (r.1 ≡ mem))
      ⊎ ((offset + length buffer ≤ p.handle.size)
          × (r.0 ≡ ok)
          × ((file_of r.1 p).len ≡ max (demo_file_size mem p) (offset + length buffer))
          × ((k : ℕ) → (file_of r.1 p).byte k ≡ overwrite (file_of mem p).byte offset buffer k)
          × ((k : ℕ)
              → (k < p.handle.addr) ⊎ (p.handle.addr + 16 + p.handle.size ≤ k)
              → r.1 k ≡ mem k))
unfolding demo_write get_size set_size demo_file_size
demo_write-File mem p buffer offset small short =
    let n = length buffer in
    let addr = p.handle.addr in
    let content = get_filecontent_addr p.handle offset in
    let at : content ≡ addr + 16 + offset = content_at p.handle offset in
    let written = write_bytes mem content buffer in
    let len = max (load 8 mem addr) (n + offset) in
    elim (Bool-cases (test_access_valid p n offset)) [
      | inr invalid ↦
          rw (invalid, demo_write) (inl (ground (arith, invalid, valid_iff p n offset), refl, refl))
      | inl valid ↦
          let fits : offset + n ≤ p.handle.size = ground (arith, valid, valid_iff p n offset) in
          let fitting : len < 256 ^ 8 = ground (arith, small, short, fits) in
          rw (valid, demo_write)
            (inr (
              fits,
              refl,
              load-store 8 written addr len fitting ∙ ground arith,
              λ k.
                  store-outside 8 written addr len (addr + 16 + k) (inr (omega arith))
                  ∙ ap (λ a. write_bytes mem a buffer (addr + 16 + k)) at
                  ∙ write_bytes-overwrite mem (addr + 16) offset buffer k,
              λ k out.
                  store-outside 8 written addr len k (ground (arith, out))
                  ∙ write_bytes-outside mem content buffer k (ground (arith, out, fits, at)),
            ))
    ]

-- A read of SQLite either is refused with SQLITE_IOERR_READ, where the range ends after the size of
-- the region, or gives the bytes of the file from the offset on.
pub demo_read-File :
    (mem : Bytes) (p : DemoFile) (n offset : ℕ)
    → ((p.handle.size < offset + n) × (demo_read mem p n offset ≡ (ioerr_read, [])))
      ⊎ ((offset + n ≤ p.handle.size)
          × (demo_read mem p n offset ≡ (ok, slice (file_of mem p).byte offset n)))
unfolding demo_read
demo_read-File mem p n offset = elim (Bool-cases (test_access_valid p n offset)) [
  | inr invalid ↦
      rw (invalid, demo_read) (inl (ground (arith, invalid, valid_iff p n offset), refl))
  | inl valid ↦
      rw (valid, demo_read)
        (inr (
          ground (arith, valid, valid_iff p n offset),
          rw (content_at p.handle offset, read_bytes-slice mem (p.handle.addr + 16) offset n) refl,
        ))
]

-- What is written to a file is read back: after a write that succeeds, a read of the same range
-- succeeds and gives the buffer.
pub demo_read-demo_write :
    (mem : Bytes) (p : DemoFile) (buffer : List ℕ) (offset : ℕ) (mem' : Bytes)
    → demo_write mem p buffer offset ≡ (ok, mem')
    → demo_read mem' p (length buffer) offset ≡ (ok, buffer)
unfolding demo_write demo_read set_size
demo_read-demo_write mem p buffer offset mem' e =
    elim (Bool-cases (test_access_valid p (length buffer) offset)) [
      | inr invalid ↦ let k = rw (invalid, demo_write) at e in absurd (ground (arith, k))
      | inl valid ↦
          let k = ap (λ (r : Code × Bytes). r.1) (rw (valid, demo_write) at e) in
          let content = get_filecontent_addr p.handle offset in
          let at = content_at p.handle offset in
          let written = write_bytes mem content buffer in
          let len = max (get_size mem p.handle) (length buffer + offset) in
          rw (valid, demo_read, ← k)
            (ap (λ bytes. (ok, bytes))
              (read_bytes-cong (set_size written p.handle len) written content (length buffer)
                  (λ i lo hi.
                    store-outside 8 written p.handle.addr len i (inr (omega (arith, at, lo))))
                ∙ read_bytes-write_bytes mem content buffer))
    ]

-- The test of a range does not count the 16 bytes before the contents: a write of one byte to the
-- last place that it allows is done, and changes the byte 15 places after the end of the region.
pub demo_write-overruns :
    (mem : Bytes) (p : DemoFile) (x : ℕ)
    → 1 ≤ p.handle.size
    → let r = demo_write mem p (x ∷ []) (p.handle.size - 1) in
      (r.0 ≡ ok) × (r.1 (p.handle.addr + p.handle.size + 15) ≡ x)
unfolding demo_write set_size write_bytes
demo_write-overruns mem p x positive =
    let offset = p.handle.size - 1 in
    let content = get_filecontent_addr p.handle offset in
    let last = p.handle.addr + p.handle.size + 15 in
    let at : content ≡ last = omega (arith, content_at p.handle offset, positive) in
    let valid : test_access_valid p 1 offset ≡ true =
      valid_iff p 1 offset ∙ ground (arith, positive) in
    rw (valid, demo_write)
      (
        refl,
        store-outside 8 (update mem content x) p.handle.addr
              (max (get_size mem p.handle) (1 + offset)) last (inr (omega (arith, positive)))
            ∙ ground (arith, at),
      )
