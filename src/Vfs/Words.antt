-- ===== src/Vfs/Words.antt =====
-- Words and buffers in memory: what was copied there is what is copied from there.
use native.Mathlib.Nat.{pow-suc}
use dasim.Base.{
  ℕ, zero, suc, ◌+◌, ◌*◌, ◌/◌, ◌%◌, ◌^◌, ◌≤◌, ◌<◌, ◌≡◌, ◌∙◌, refl, ◌⊎◌, inl, List, [], ◌∷◌, length,
  ==_refl, arith,
}
use dasim.Demo.PageIo.{Bytes}
use dasim.Demo.State.{update}
use dasim.Vfs.{load, store, read_bytes, write_bytes}

pub store-outside :
    (n : ℕ) (mem : Bytes) (addr v k : ℕ)
    → (k < addr) ⊎ (addr + n ≤ k)
    → store n mem addr v k ≡ mem k
unfolding store
store-outside zero mem addr v k out = refl
store-outside (suc n) mem addr v k out =
    store-outside n (update mem addr (v % 256)) (addr + 1) (v / 256) k (ground (arith, out))
    ∙ ground (arith, out)

pub load-cong :
    (n : ℕ) (mem mem' : Bytes) (addr : ℕ)
    → ((k : ℕ) → addr ≤ k → k < addr + n → mem k ≡ mem' k)
    → load n mem addr ≡ load n mem' addr
unfolding load
load-cong zero mem mem' addr same = refl
load-cong (suc n) mem mem' addr same =
    let rest =
      load-cong n mem mem' (addr + 1) (λ k lo hi. same k (omega (arith, lo)) (omega (arith, hi))) in
    let here = same addr (omega arith) (omega arith) in omega (arith, rest, here)

pub load-store :
    (n : ℕ) (mem : Bytes) (addr v : ℕ) → v < 256 ^ n → load n (store n mem addr v) addr ≡ v
unfolding load store
load-store zero mem addr v small = omega (arith, small)
load-store (suc n) mem addr v small =
    let bound : v < 256 * 256 ^ n = ground (arith, small, pow-suc 256 n) in
    let rest =
      load-store n (update mem addr (v % 256)) (addr + 1) (v / 256) (omega (arith, bound)) in
    let here =
      store-outside n (update mem addr (v % 256)) (addr + 1) (v / 256) addr (inl (omega arith)) in
    let at : update mem addr (v % 256) addr ≡ v % 256 = rw (==_refl addr) refl in
    omega (arith, rest, here, at)

pub write_bytes-outside :
    (mem : Bytes) (addr : ℕ) (xs : List ℕ) (k : ℕ)
    → (k < addr) ⊎ (addr + length xs ≤ k)
    → write_bytes mem addr xs k ≡ mem k
unfolding write_bytes
write_bytes-outside mem addr [] k out = refl
write_bytes-outside mem addr (x ∷ xs) k out =
    write_bytes-outside (update mem addr x) (addr + 1) xs k (ground (arith, out))
    ∙ ground (arith, out)

pub read_bytes-cong :
    (mem mem' : Bytes) (addr n : ℕ)
    → ((k : ℕ) → addr ≤ k → k < addr + n → mem k ≡ mem' k)
    → read_bytes mem addr n ≡ read_bytes mem' addr n
unfolding read_bytes
read_bytes-cong mem mem' addr zero same = refl
read_bytes-cong mem mem' addr (suc n) same =
    let rest =
      read_bytes-cong mem mem' (addr + 1) n
        (λ k lo hi. same k (omega (arith, lo)) (omega (arith, hi))) in
    let here = same addr (omega arith) (omega arith) in rw (here, rest)

pub read_bytes-write_bytes :
    (mem : Bytes) (addr : ℕ) (xs : List ℕ)
    → read_bytes (write_bytes mem addr xs) addr (length xs) ≡ xs
unfolding read_bytes write_bytes
read_bytes-write_bytes mem addr [] = refl
read_bytes-write_bytes mem addr (x ∷ xs) =
    let rest = read_bytes-write_bytes (update mem addr x) (addr + 1) xs in
    let here = write_bytes-outside (update mem addr x) (addr + 1) xs addr (inl (omega arith)) in
    let at : update mem addr x addr ≡ x = rw (==_refl addr) refl in rw (rest, here, at)
