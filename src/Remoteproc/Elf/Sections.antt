-- ===== src/Remoteproc/Elf/Sections.antt =====
-- lib/remoteproc/elf_loader.c: `elf_get_section_from_name` and `elf_locate_rsc_table`.
use openamp.Base.{
  ℕ, zero, suc, ◌+◌, ◌*◌, Bool, true, false, Option, none, some, List, [], ◌∷◌, ◌==◌, if◌then◌else◌,
  ◌>>=◌,
}
use openamp.Base.Int.{ℤ, pos, neg}
use openamp.Remoteproc.{einval}
use openamp.Remoteproc.Elf.{
  Block, hdrs_complete, ElfInfo, elf_is_64, elf_shnum, sizeof_shdr, elf_parse_section, field,
}
use openamp.Remoteproc.Elf.Header.{same_hdrs}

-- RPROC_ERR_LOADER_STATE
abbrev pub loader_state : ℤ
loader_state = neg 12

-- `strcmp` of a name, without its 0, with the string at `off` of a table: whether they are the same.
unfoldable pub same_name : (name : List ℕ) → Block → (off : ℕ) → Option Bool
same_name [] b off = do c ← field b 1 off; some (c == 0)
same_name (x ∷ name) b off = do
  c ← field b 1 off
  elim (c == x) [ true ↦ same_name name b (off + 1) | false ↦ some false ]

-- The loop over the sections, from number `i` with `left` to go: the offset of the section header; `some
-- none` is NULL.
unfoldable pub find_section :
    (name : List ℕ) → (names shdrs : Block) → (is_64 : Bool) → (i left : ℕ) → Option (Option ℕ)
unfolding same_name
find_section name names shdrs is_64 i zero = some none
find_section name names shdrs is_64 i (suc left) = do
  sh_name ← field shdrs 4 (i * sizeof_shdr is_64)
  same ← same_name name names sh_name
  elim same [
    | true ↦ some (some (i * sizeof_shdr is_64))
    | false ↦ find_section name names shdrs is_64 (i + 1) left
  ]

unfoldable pub elf_get_section_from_name : ElfInfo → (name : List ℕ) → Option (Option (Block × ℕ))
unfolding find_section
elf_get_section_from_name info name = elim info.shdrs [
  | none ↦ some none
  | some shdrs ↦ elim info.shstrtab [
    | none ↦ some none
    | some names ↦ do
      found ← find_section name names shdrs (elf_is_64 info.ehdr) 0 (elf_shnum info.ehdr)
      some (elim found [ none ↦ none | some off ↦ some (shdrs, off) ])
  ]
]

-- ".resource_table"
abbrev pub sect_name : List ℕ
sect_name =
    0x2e ∷ 0x72 ∷ 0x65 ∷ 0x73 ∷ 0x6f ∷ 0x75 ∷ 0x72 ∷ 0x63 ∷ 0x65 ∷ 0x5f ∷ 0x74 ∷ 0x61 ∷ 0x62 ∷ 0x6c
    ∷ 0x65 ∷ []

-- What `elf_locate_rsc_table` leaves behind its pointers.
pub record RscPlace : Type 0 where
  pub da : ℕ
  pub offset : ℕ
  pub size : ℕ

unfoldable pub elf_locate_rsc_table : Option ElfInfo → RscPlace → Option (ℤ × RscPlace)
unfolding elf_get_section_from_name
elf_locate_rsc_table none place = some (einval, place)
elf_locate_rsc_table (some info) place =
    if same_hdrs info.load_state.hdrs hdrs_complete
    then (do
      found ← elf_get_section_from_name info sect_name
      elim found [
        | none ↦ some (pos 0, record place { size = 0 })
        | some (b, off) ↦ do
          s ← elf_parse_section (elf_is_64 info.ehdr) b off
          some (pos 0, record { da = s.sh_addr; offset = s.sh_offset; size = s.sh_size })
      ])
    else some (loader_state, place)
