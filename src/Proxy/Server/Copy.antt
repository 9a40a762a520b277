-- ===== src/Proxy/Server/Copy.antt =====
-- apps/examples/rpc_demo/rpc_demod.c: `copy_from_shbuf`.
--
-- `mem` is the memory that `shbuf` points into. A word is read and written as its four bytes.
use openamp.Base.{
  ℕ, zero, suc, ◌+◌, ◌%◌, ◌≡◌, refl, ap, List, [], ◌∷◌, arith, ◌==◌, if◌then◌else◌, Bool-cases, inl,
  inr,
}

-- The bytes of the memory from an address on.
pub bytes_at : (ℕ → ℕ) → (addr len : ℕ) → List ℕ
bytes_at mem addr zero = []
bytes_at mem addr (suc len) = mem addr ∷ bytes_at mem (addr + 1) len

-- The third loop, and the second with the third behind it.
pub copy_tail : (ℕ → ℕ) → (addr len : ℕ) → List ℕ
copy_tail mem addr zero = []
copy_tail mem addr (suc len) = mem addr ∷ copy_tail mem (addr + 1) len

pub copy_words : (ℕ → ℕ) → (addr len : ℕ) → List ℕ
unfolding copy_tail
copy_words mem addr (suc (suc (suc (suc len)))) =
    mem addr ∷ mem (addr + 1) ∷ mem (addr + 2) ∷ mem (addr + 3) ∷ copy_words mem (addr + 4) len
copy_words mem addr len = copy_tail mem addr len

-- The first loop, up to an address that is a multiple of sizeof(int), with the others behind it.
pub copy_from_shbuf : (ℕ → ℕ) → (shbuf len : ℕ) → List ℕ
unfolding copy_words
copy_from_shbuf mem shbuf zero = copy_words mem shbuf zero
copy_from_shbuf mem shbuf (suc len) =
    let rest = copy_from_shbuf mem (shbuf + 1) len in
    if shbuf % 4 == 0 then copy_words mem shbuf (suc len) else mem shbuf ∷ rest

copy_tail-eq : (mem : ℕ → ℕ) (addr len : ℕ) → copy_tail mem addr len ≡ bytes_at mem addr len
unfolding copy_tail bytes_at
copy_tail-eq mem addr zero = refl
copy_tail-eq mem addr (suc len) = ap (λ bs. mem addr ∷ bs) (copy_tail-eq mem (addr + 1) len)

copy_words-eq : (mem : ℕ → ℕ) (addr len : ℕ) → copy_words mem addr len ≡ bytes_at mem addr len
unfolding copy_words copy_tail bytes_at
copy_words-eq mem addr zero = refl
copy_words-eq mem addr (suc zero) = refl
copy_words-eq mem addr (suc (suc zero)) = refl
copy_words-eq mem addr (suc (suc (suc zero))) = refl
copy_words-eq mem addr (suc (suc (suc (suc len)))) =
    let two : addr + 1 + 1 ≡ addr + 2 = omega arith in
    let three : addr + 2 + 1 ≡ addr + 3 = omega arith in
    let four : addr + 3 + 1 ≡ addr + 4 = omega arith in
    rw (two, three, four, copy_words-eq mem (addr + 4) len) refl

-- `copy_from_shbuf` copies the `len` bytes at `shbuf`, whatever the alignment of the address.
pub copy_from_shbuf-eq :
    (mem : ℕ → ℕ) (shbuf len : ℕ) → copy_from_shbuf mem shbuf len ≡ bytes_at mem shbuf len
unfolding copy_from_shbuf bytes_at
copy_from_shbuf-eq mem shbuf zero = copy_words-eq mem shbuf zero
copy_from_shbuf-eq mem shbuf (suc len) = elim (Bool-cases (shbuf % 4 == 0)) [
  | inl e ↦ ground (arith, e, copy_words-eq mem shbuf (suc len))
  | inr e ↦ ground (arith, e, copy_from_shbuf-eq mem (shbuf + 1) len)
]
