-- ===== src/Remoteproc/Memory.antt =====
-- lib/remoteproc/remoteproc.c: the memories of a remote processor, `remoteproc_get_mem`,
-- `remoteproc_datopa`, `remoteproc_patoda`, `remoteproc_get_io_with_*` and `remoteproc_mmap`.
--
-- `MetalIo` are the functions of libmetal on an I/O region. Addresses have 64 bits.
pub mod Translate
use openamp.Base.{
  ℕ, zero, suc, ◌+◌, ◌-◌, ◌%◌, ◌^◌, Bool, true, false, not, ◌&&◌, Option, none, some, List, [], ◌∷◌,
  ltb, leb, ◌==◌, if◌then◌else◌,
}
use openamp.Rpmsg.{strncmp_eq}
use openamp.Remoteproc.{Remoteproc, RemoteprocMem, bad_phys}

-- `metal_io_virt_to_offset`, `metal_io_phys_to_offset` and `metal_io_phys_to_virt`; METAL_BAD_OFFSET is
-- the same number as METAL_BAD_PHYS.
pub record MetalIo : Type 0 where
  pub virt_to_offset : (io va : ℕ) → ℕ
  pub phys_to_offset : (io pa : ℕ) → ℕ
  pub phys_to_virt : (io pa : ℕ) → ℕ

-- `a + b` and `a + b - c` in 64 bits
abbrev pub add64 : ℕ → ℕ → ℕ
add64 a b = (a + b) % 2 ^ 64

abbrev pub shift64 : (a b c : ℕ) → ℕ
shift64 a b c = (a + b + 2 ^ 64 - c % 2 ^ 64) % 2 ^ 64

-- `strlen`: a list stands for the characters of a string, which ends at its first 0 or where the list
-- does.
pub strlen : List ℕ → ℕ
strlen [] = 0
strlen (zero ∷ s) = 0
strlen (suc c ∷ s) = suc (strlen s)

abbrev pub max_name_len : ℕ
max_name_len = 32

-- `start <= x && x + size <= start + len`, as the code computes it
abbrev pub in_range : (start len x size : ℕ) → Bool
in_range start len x size = leb start x && leb (add64 x size) (add64 start len)

module _ (metal : MetalIo) where
  -- The body of the loop of `remoteproc_get_mem`: whether it returns this memory. A name of `none` and a
  -- `va` of 0 are NULL.
  pub mem_matches : RemoteprocMem → (name : Option (List ℕ)) → (pa da va size : ℕ) → Bool
  unfolding strlen
  mem_matches mem (some n) pa da va size = strncmp_eq (strlen n) n mem.name
  mem_matches mem none pa da va size =
      if not (pa == bad_phys)
      then in_range mem.pa mem.size pa size
      else (if not (da == bad_phys)
          then in_range mem.da mem.size da size
          else not (va == 0) && not (metal.virt_to_offset mem.io va == bad_phys))

  pub find_mem :
      List RemoteprocMem → (name : Option (List ℕ)) → (pa da va size : ℕ) → Option RemoteprocMem
  unfolding mem_matches
  find_mem [] name pa da va size = none
  find_mem (mem ∷ mems) name pa da va size =
      let rest = find_mem mems name pa da va size in
      if mem_matches mem name pa da va size then some mem else rest

  -- The test of the name's length.
  abbrev pub name_too_long : Option (List ℕ) → Bool
  name_too_long none = false
  name_too_long (some n) = ltb max_name_len (strlen n)

  pub remoteproc_get_mem :
      {B : Type 0}
      → Remoteproc B
      → (name : Option (List ℕ)) → (pa da va size : ℕ) → Option RemoteprocMem
  unfolding find_mem strlen
  remoteproc_get_mem rproc name pa da va size =
      if name_too_long name then none else find_mem rproc.mems name pa da va size

abbrev pub remoteproc_datopa : RemoteprocMem → (da : ℕ) → ℕ
remoteproc_datopa mem da = shift64 mem.pa da mem.da

abbrev pub remoteproc_patoda : RemoteprocMem → (pa : ℕ) → ℕ
remoteproc_patoda mem pa = shift64 mem.da pa mem.pa

-- The I/O region of a memory, or NULL.
abbrev pub io_of : Option RemoteprocMem → ℕ
io_of none = 0
io_of (some mem) = mem.io

-- What `remoteproc_mmap` returns and leaves behind its pointers. The platform's `mmap` has the same.
pub record Mapping : Type 0 where
  pub va : ℕ
  pub pa : ℕ
  pub da : ℕ
  pub io : ℕ

abbrev pub Mmap : Type 0 → Type 0
Mmap P = P → (pa da size attribute io : ℕ) → Mapping × P

module _ (metal : MetalIo) {B : Type 0} (rproc : Remoteproc B) where
  pub remoteproc_get_io_with_name : (name : List ℕ) → ℕ
  unfolding remoteproc_get_mem
  remoteproc_get_io_with_name name =
      io_of (remoteproc_get_mem metal rproc (some name) bad_phys bad_phys 0 0)

  pub remoteproc_get_io_with_pa : (pa : ℕ) → ℕ
  unfolding remoteproc_get_mem
  remoteproc_get_io_with_pa pa = io_of (remoteproc_get_mem metal rproc none pa bad_phys 0 0)

  -- The region and the offset; `none` is NULL, with the offset not written.
  pub remoteproc_get_io_with_da : (da : ℕ) → Option (ℕ × ℕ)
  unfolding remoteproc_get_mem
  remoteproc_get_io_with_da da = elim (remoteproc_get_mem metal rproc none bad_phys da 0 0) [
    | none ↦ none
    | some mem ↦ some (mem.io, metal.phys_to_offset mem.io (remoteproc_datopa mem da))
  ]

  pub remoteproc_get_io_with_va : (va : ℕ) → ℕ
  unfolding remoteproc_get_mem
  remoteproc_get_io_with_va va = io_of (remoteproc_get_mem metal rproc none bad_phys bad_phys va 0)

  -- `remoteproc_mmap` for pointers `pa` and `da`, `none` for NULL; `io` is what `*io` holds before.
  -- `Mapping.pa` and `Mapping.da` are `lpa` and `lda`, which go to `*pa` and `*da` where there are such.
  abbrev pub or_bad : Option ℕ → ℕ
  or_bad none = bad_phys
  or_bad (some a) = a

  module _ {P : Type 0} (mmap : Option (Mmap P)) where
    pub map_in : Option RemoteprocMem → P → (lpa lda size attribute io : ℕ) → Mapping × P
    map_in (some mem) p lpa lda size attribute io =
        let lpa' =
          if lpa == bad_phys && not (lda == bad_phys) then remoteproc_datopa mem lda else lpa in
        let lda' = if lpa == bad_phys then lda else remoteproc_patoda mem lpa in
        (record { va = metal.phys_to_virt mem.io lpa'; pa = lpa'; da = lda'; io = mem.io }, p)
    map_in none p lpa lda size attribute io = elim mmap [
      | none ↦ (record { va = 0; pa = lpa; da = lda; io = io }, p)
      | some f ↦ f p lpa lda size attribute io
    ]

    pub remoteproc_mmap : P → (pa da : Option ℕ) → (size attribute io : ℕ) → Mapping × P
    unfolding remoteproc_get_mem map_in
    remoteproc_mmap p none none size attribute io =
        (record { va = 0; pa = bad_phys; da = bad_phys; io = io }, p)
    remoteproc_mmap p pa da size attribute io =
        let lpa = or_bad pa in
        let lda = or_bad da in
        map_in (remoteproc_get_mem metal rproc none lpa lda 0 size) p lpa lda size attribute io
