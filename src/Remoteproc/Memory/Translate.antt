-- ===== src/Remoteproc/Memory/Translate.antt =====
-- lib/remoteproc/remoteproc.c: `remoteproc_mmap` of a device address finds the memory that covers it.
use openamp.Base.{
  ℕ, ◌+◌, ◌-◌, ◌^◌, ◌≤◌, ◌<◌, ◌≡◌, ◌≢◌, refl, ap, true, false, ◌⊎◌, inl, inr, Option, none, some,
  List, [], ◌∷◌, ◌++◌, arith, All, Bool-cases,
}
use openamp.Remoteproc.{Remoteproc, RemoteprocMem, bad_phys}
use openamp.Remoteproc.Memory.{
  MetalIo, Mmap, in_range, mem_matches, find_mem, remoteproc_get_mem, remoteproc_datopa,
  remoteproc_mmap, map_in,
}

-- The addresses of a memory do not run over the end of the address space.
abbrev pub Fits : RemoteprocMem → Type 0
Fits mem = (mem.da + mem.size < 2 ^ 64) × (mem.pa + mem.size < 2 ^ 64)

-- The memory has all of `da .. da + size`.
abbrev pub Covers : (da size : ℕ) → RemoteprocMem → Type 0
Covers da size mem = (mem.da ≤ da) × (da + size ≤ mem.da + mem.size)

module _ (metal : MetalIo) (da size : ℕ) (proper : da ≢ bad_phys) (fits : da + size < 2 ^ 64) where
  matches-da :
      (mem : RemoteprocMem)
      → Fits mem
      → (Covers da size mem × (mem_matches metal mem none bad_phys da 0 size ≡ true))
        ⊎ ((¬ Covers da size mem) × (mem_matches metal mem none bad_phys da 0 size ≡ false))
  unfolding mem_matches
  matches-da mem f = elim (Bool-cases (in_range mem.da mem.size da size)) [
    | inl e ↦ inl (ground arith, ground arith)
    | inr e ↦ inr ((λ c. ground arith), ground arith)
  ]

  -- The loop finds the first memory that covers the range, if there is one.
  find-da :
      (mems : List RemoteprocMem)
      → All Fits mems
      → ((find_mem metal mems none bad_phys da 0 size ≡ none)
          × All (λ mem. ¬ Covers da size mem) mems)
        ⊎ ((pre post : List RemoteprocMem) × (mem : RemoteprocMem) × (find_mem metal mems none
                bad_phys da 0 size
              ≡ some mem)
            × (mems ≡ pre ++ (mem ∷ post))
            × All (λ m. ¬ Covers da size m) pre
            × Covers da size mem
            × Fits mem)
  unfolding find_mem
  find-da [] h = inl (refl, tt)
  find-da (mem ∷ mems) (f, h) = elim (matches-da mem f) [
    | inl (c, e) ↦ inr ([], mems, mem, rw e refl, refl, tt, c, f)
    | inr (no_cover, e) ↦ elim (find-da mems h) [
      | inl (eq, none_covers) ↦ inl (rw (e, eq) refl, (no_cover, none_covers))
      | inr (pre, post, m, eq, split, a, c, fm) ↦
          inr (mem ∷ pre, post, m, rw (e, eq) refl, ap (◌∷◌ mem) split, (no_cover, a), c, fm)
    ]
  ]

  -- Where no memory of the remote processor runs over the end of the address space, `remoteproc_mmap` of
  -- a device address other than METAL_BAD_PHYS, of a range that does not run over either: if a memory
  -- covers the range, the first one that does gives the result, which is the physical address as far
  -- into the memory as the device address is, with its virtual address and its region, and the range
  -- lies inside the memory there too; else the platform's `mmap` gives the result, or NULL without one.
  pub mmap_da :
      {B P : Type 0}
      → (rproc : Remoteproc B) (mmap : Option (Mmap P)) (p : P) (attribute io : ℕ)
      → All Fits rproc.mems
      → (All (λ mem. ¬ Covers da size mem) rproc.mems
          × (remoteproc_mmap metal rproc mmap p none (some da) size attribute io ≡ elim mmap [
            | none ↦ (record { va = 0; pa = bad_phys; da = da; io = io }, p)
            | some f ↦ f p bad_phys da size attribute io
          ]))
        ⊎ ((pre post : List RemoteprocMem) × (mem : RemoteprocMem) × (rproc.mems
              ≡ pre ++ (mem ∷ post))
            × All (λ m. ¬ Covers da size m) pre
            × Covers da size mem
            × (let pa = mem.pa + (da - mem.da) in
                (remoteproc_mmap metal rproc mmap p none (some da) size attribute io ≡ (
                  record { va = metal.phys_to_virt mem.io pa; pa = pa; da = da; io = mem.io },
                  p,
                ))
                × (pa + size ≤ mem.pa + mem.size)))
  unfolding remoteproc_mmap remoteproc_get_mem map_in
  mmap_da rproc mmap p attribute io h = elim (find-da rproc.mems h) [
    | inl (eq, none_covers) ↦ inl (none_covers, rw eq refl)
    | inr (pre, post, mem, eq, split, a, c, f) ↦
        let there : remoteproc_datopa mem da ≡ mem.pa + (da - mem.da) = omega arith in
        inr (pre, post, mem, split, a, c, (ground (arith, eq, there), omega arith))
  ]

-- A physical address of METAL_BAD_PHYS is none.
pub mmap-bad :
    {B P : Type 0} (metal : MetalIo) (rproc : Remoteproc B) (mmap : Option (Mmap P)) (p : P)
    (da size attribute io : ℕ)
    → remoteproc_mmap metal rproc mmap p (some bad_phys) (some da) size attribute io
      ≡ remoteproc_mmap metal rproc mmap p none (some da) size attribute io
unfolding remoteproc_mmap
mmap-bad metal rproc mmap p da size attribute io = refl
