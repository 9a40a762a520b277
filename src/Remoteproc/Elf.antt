-- ===== src/Remoteproc/Elf.antt =====
-- lib/remoteproc/elf_loader.c and the structs of lib/include/openamp/elf_loader.h: what the loader keeps of
-- an ELF image, and the fields of its headers.
--
-- `ElfInfo` is `struct elf32_info` or `struct elf64_info`, by the class byte of its header. A table that is
-- copied from the image is a `Block`, and every access to it is checked: a result of `none` is an access
-- outside it. Fields are read low byte first; `size_t` and `metal_phys_addr_t` have 64 bits.
pub mod Header
pub mod Segments
pub mod Load
pub mod Sections
pub mod Tests
use openamp.Base.{
  ℕ, zero, suc, ◌+◌, ◌*◌, ◌^◌, Bool, true, false, ◌&&◌, Option, none, some, List, [], ◌∷◌, leb, ltb,
  ◌==◌, if◌then◌else◌, ◌>>=◌,
}
use openamp.Remoteproc.{bad_phys}

-- An allocated table.
pub record Block : Type 0 where
  pub size : ℕ
  pub at : ℕ → ℕ

-- A field of `n` bytes.
pub le_bytes : (n : ℕ) → (ℕ → ℕ) → (off : ℕ) → ℕ
le_bytes zero at off = 0
le_bytes (suc n) at off = at off + 256 * le_bytes n at (off + 1)

abbrev pub field : Block → (n off : ℕ) → Option ℕ
field b n off = if leb (off + n) b.size then some (le_bytes n b.at off) else none

-- `memcpy` of `n` bytes from `start` of a buffer of `len` bytes.
abbrev pub copy_of : (ℕ → ℕ) → (len start n : ℕ) → Option Block
copy_of img len start n =
    if leb (start + n) len then some (record { size = n; at = λ i. img (start + i) }) else none

-- The bits of RPROC_LOADER_MASK and of ELF_STATE_MASK in the load state, and all of it; `nseg` are the
-- bits of ELF_NEXT_SEGMENT_MASK.
pub data Stage : Type 0 where
  not_ready ready_to_load post_data_load load_complete : Stage

pub data HdrState : Type 0 where
  init wait_for_phdrs wait_for_shdrs wait_for_shstrtab hdrs_complete : HdrState

pub record LoadState : Type 0 where
  pub stage : Stage
  pub hdrs : HdrState
  pub nseg : ℕ

-- ELF_STATE_INIT and ELF_STATE_WAIT_FOR_PHDRS as whole states
abbrev pub state_init : LoadState
state_init = record { stage = not_ready; hdrs = init; nseg = 0 }

abbrev pub state_wait_for_phdrs : LoadState
state_wait_for_phdrs = record { stage = not_ready; hdrs = wait_for_phdrs; nseg = 0 }

pub record ElfInfo : Type 0 where
  pub ehdr : ℕ → ℕ
  pub load_state : LoadState
  pub phdrs : Option Block
  pub shdrs : Option Block
  pub shstrtab : Option Block

-- `elf_is_64`, of the bytes of a header
abbrev pub elf_is_64 : (ℕ → ℕ) → Bool
elf_is_64 ehdr = ehdr 4 == 2

abbrev pub sizeof_ehdr : (is_64 : Bool) → ℕ
sizeof_ehdr is_64 = if is_64 then 64 else 52

abbrev pub sizeof_phdr : (is_64 : Bool) → ℕ
sizeof_phdr is_64 = if is_64 then 56 else 32

abbrev pub sizeof_shdr : (is_64 : Bool) → ℕ
sizeof_shdr is_64 = if is_64 then 64 else 40

-- sizeof(struct elf64_info) and sizeof(struct elf32_info), with pointers of 8 bytes
abbrev pub elf_info_size : (is_64 : Bool) → ℕ
elf_info_size is_64 = if is_64 then 96 else 80

-- A field of the header, with its bytes and its place in either class.
abbrev pub ehdr_field : (ehdr : ℕ → ℕ) → (n32 off32 n64 off64 : ℕ) → ℕ
ehdr_field ehdr n32 off32 n64 off64 =
    if elf_is_64 ehdr then le_bytes n64 ehdr off64 else le_bytes n32 ehdr off32

pub elf_phoff : (ehdr : ℕ → ℕ) → ℕ
unfolding le_bytes
elf_phoff ehdr = ehdr_field ehdr 4 28 8 32

pub elf_phentsize : (ehdr : ℕ → ℕ) → ℕ
unfolding le_bytes
elf_phentsize ehdr = ehdr_field ehdr 2 42 2 54

pub elf_phnum : (ehdr : ℕ → ℕ) → ℕ
unfolding le_bytes
elf_phnum ehdr = ehdr_field ehdr 2 44 2 56

pub elf_shoff : (ehdr : ℕ → ℕ) → ℕ
unfolding le_bytes
elf_shoff ehdr = ehdr_field ehdr 4 32 8 40

pub elf_shentsize : (ehdr : ℕ → ℕ) → ℕ
unfolding le_bytes
elf_shentsize ehdr = ehdr_field ehdr 2 46 2 58

pub elf_shnum : (ehdr : ℕ → ℕ) → ℕ
unfolding le_bytes
elf_shnum ehdr = ehdr_field ehdr 2 48 2 60

pub elf_shstrndx : (ehdr : ℕ → ℕ) → ℕ
unfolding le_bytes
elf_shstrndx ehdr = ehdr_field ehdr 2 50 2 62

-- `elf_get_entry` and `elf_get_load_state`; `none` is NULL.
pub elf_get_entry : Option ElfInfo → ℕ
unfolding le_bytes
elf_get_entry none = bad_phys
elf_get_entry (some info) = ehdr_field info.ehdr 4 24 8 24

pub elf_get_load_state : Option ElfInfo → Option LoadState
elf_get_load_state none = none
elf_get_load_state (some info) = some info.load_state

-- `elf_identify`: whether the buffer starts with ELFMAG; NULL is `none`.
pub elf_identify : Option (ℕ → ℕ) → (len : ℕ) → Bool
elf_identify none len = false
elf_identify (some img) len =
    if ltb len 4 then false else img 0 == 0x7f && img 1 == 0x45 && img 2 == 0x4c && img 3 == 0x46

-- The fields that `elf_parse_segment` gives.
pub record Segment : Type 0 where
  pub p_type : ℕ
  pub p_offset : ℕ
  pub p_vaddr : ℕ
  pub p_paddr : ℕ
  pub p_filesz : ℕ
  pub p_memsz : ℕ

-- The program header at `off` of a table.
pub elf_parse_segment : (is_64 : Bool) → Block → (off : ℕ) → Option Segment
unfolding le_bytes
elf_parse_segment is_64 b off = do
  p_type ← field b 4 off
  p_offset ← if is_64 then field b 8 (off + 8) else field b 4 (off + 4)
  p_vaddr ← if is_64 then field b 8 (off + 16) else field b 4 (off + 8)
  p_paddr ← if is_64 then field b 8 (off + 24) else field b 4 (off + 12)
  p_filesz ← if is_64 then field b 8 (off + 32) else field b 4 (off + 16)
  p_memsz ← if is_64 then field b 8 (off + 40) else field b 4 (off + 20)
  some (record {
    p_type = p_type;
    p_offset = p_offset;
    p_vaddr = p_vaddr;
    p_paddr = p_paddr;
    p_filesz = p_filesz;
    p_memsz = p_memsz;
  })

-- The fields of a section header that the loader asks `elf_parse_section` for.
pub record Section : Type 0 where
  pub sh_addr : ℕ
  pub sh_offset : ℕ
  pub sh_size : ℕ

pub elf_parse_section : (is_64 : Bool) → Block → (off : ℕ) → Option Section
unfolding le_bytes
elf_parse_section is_64 b off = do
  sh_addr ← if is_64 then field b 8 (off + 16) else field b 4 (off + 12)
  sh_offset ← if is_64 then field b 8 (off + 24) else field b 4 (off + 16)
  sh_size ← if is_64 then field b 8 (off + 32) else field b 4 (off + 20)
  some (record { sh_addr = sh_addr; sh_offset = sh_offset; sh_size = sh_size })

-- `elf_get_segment_from_index` and `elf_get_section_from_index`: the table and the offset in it; `none` is
-- NULL. The index is not negative.
abbrev pub elf_get_segment_from_index : ElfInfo → (index : ℕ) → Option (Block × ℕ)
elf_get_segment_from_index info index = elim info.phdrs [
  | none ↦ none
  | some b ↦
      if leb (elf_phnum info.ehdr) index
      then none
      else some (b, index * sizeof_phdr (elf_is_64 info.ehdr))
]

abbrev pub elf_get_section_from_index : ElfInfo → (index : ℕ) → Option (Block × ℕ)
elf_get_section_from_index info index = elim info.shdrs [
  | none ↦ none
  | some b ↦
      if leb (elf_shnum info.ehdr) index
      then none
      else some (b, index * sizeof_shdr (elf_is_64 info.ehdr))
]
