-- ===== src/Remoteproc/Elf/Tests.antt =====
-- The theorems of the ELF loader applied to a 32-bit image with two program headers and one section.
mod Noblock
use openamp.Base.{
  ℕ, zero, suc, ◌+◌, ◌++◌, ◌⊎◌, All, ◌-◌, ◌*◌, ◌%◌, sym, ◌≤◌, ◌<◌, ◌≡◌, ◌≢◌, refl, Bool, true,
  false, none, some, List, [], ◌∷◌, arith, ◌==◌, if◌then◌else◌,
}
use openamp.Base.Int.{pos}
use openamp.Rpmsg.Tests.{bits}
use openamp.Remoteproc.{RemoteprocMem, ready, einval, bad_phys}
use openamp.Remoteproc.Memory.{MetalIo}
use openamp.Remoteproc.Memory.Translate.{Covers}
use openamp.Remoteproc.Image.{
  ImageState, Outputs, BlockIo, handed, released, remoteproc_load_noblock,
}
use openamp.Remoteproc.Image.Segment.{told, noblock_segment, noblock_unmapped}
use openamp.Remoteproc.Elf.Sections.{
  RscPlace, elf_locate_rsc_table, elf_get_section_from_name, find_section, same_name,
}
use openamp.Remoteproc.Elf.{
  ready_to_load, post_data_load, load_complete, hdrs_complete, ElfInfo, Segment, le_bytes,
  elf_phoff, elf_phentsize, elf_phnum, elf_shoff, elf_shentsize, elf_shnum, elf_shstrndx,
  elf_parse_segment, elf_parse_section,
}
use openamp.Remoteproc.Elf.Header.{Loading, state}
use openamp.Remoteproc.Elf.Header.Complete.{Ends, first_call, load_header_completes}
use openamp.Remoteproc.Elf.Header.Tables.{HasHeaders, part_of}
use openamp.Remoteproc.Elf.Segments.{HasPhdrs, elf_next_load_segment}
use openamp.Remoteproc.Elf.Load.{Target, elf_load, load_data, load_segment}
use openamp.Remoteproc.Elf.Load.Collect.{
  collect, to_load, past, info_past, elf_load_collects, elf_load_stays,
}

-- The bytes that are not 0.
byte_at : List (ℕ × ℕ) → ℕ → ℕ
byte_at [] i = 0
byte_at ((j, b) ∷ bytes) i = if i == j then b else byte_at bytes i

-- The type of the second program header is a parameter.
abbrev image : (type : ℕ) → ℕ → ℕ
image type = byte_at (
    (0, 0x7f)
    ∷ (1, 0x45)
    ∷ (2, 0x4c)
    ∷ (3, 0x46)
    ∷ (4, 1)
    ∷ (28, 52)
    ∷ (32, 116)
    ∷ (42, 32)
    ∷ (44, 2)
    ∷ (46, 40)
    ∷ (48, 1)
    ∷ (52, 1)
    ∷ (56, 8)
    ∷ (60, 16)
    ∷ (68, 4)
    ∷ (72, 6)
    ∷ (84, type)
    ∷ (88, 12)
    ∷ (92, 32)
    ∷ (100, 2)
    ∷ (104, 2)
    ∷ (132, 156)
    ∷ (136, 1)
    ∷ [])

abbrev room : (size : ℕ) → Bool
room size = true

image-HasHeaders : HasHeaders (image 1)
unfolding le_bytes elf_phoff elf_phentsize elf_phnum elf_shoff elf_shentsize elf_shnum elf_shstrndx
    elf_parse_section byte_at
image-HasHeaders = record {
  names = record { sh_addr = 0; sh_offset = 156; sh_size = 1 };
  phdrs_fit = omega arith;
  shdrs_fit = omega arith;
  names_fit = omega arith;
  sections = omega arith;
  index = omega arith;
  parsed = refl;
}

load_header_completes_example :
    Ends room (image 1) image-HasHeaders (λ size. refl) 4 (first_call room (image 1) 16 0 0)
load_header_completes_example =
    load_header_completes room (image 1) image-HasHeaders (λ size. refl) 0 16 0 0 (omega arith)
      (omega arith)

abbrev loaded : (type : ℕ) → ElfInfo
loaded type = record {
  ehdr = image type;
  load_state = record { stage = ready_to_load; hdrs = hdrs_complete; nseg = 0 };
  phdrs = some (part_of (image type) 52 64);
  shdrs = none;
  shstrtab = none;
}

abbrev segments : (type : ℕ) → ℕ → Segment
segments type i =
    if i == 0
    then record { p_type = 1; p_offset = 8; p_vaddr = 16; p_paddr = 0; p_filesz = 4; p_memsz = 6 }
    else record {
      p_type = type;
      p_offset = 12;
      p_vaddr = 32;
      p_paddr = 0;
      p_filesz = 2;
      p_memsz = 2;
    }

parsed_1 :
    (i : ℕ)
    → i < 2
    → elf_parse_segment false (part_of (image 1) 52 64) (i * 32) ≡ some (segments 1 i)
unfolding le_bytes elf_parse_segment byte_at
parsed_1 zero lt = refl
parsed_1 (suc zero) lt = refl
parsed_1 (suc (suc i)) lt = absurd (omega arith)

loaded_1-HasPhdrs : HasPhdrs (loaded 1) (segments 1)
unfolding le_bytes elf_phnum byte_at
loaded_1-HasPhdrs = record { table = part_of (image 1) 52 64; phdrs = refl; parsed = parsed_1 }

parsed_4 :
    (i : ℕ)
    → i < 2
    → elf_parse_segment false (part_of (image 4) 52 64) (i * 32) ≡ some (segments 4 i)
unfolding le_bytes elf_parse_segment byte_at
parsed_4 zero lt = refl
parsed_4 (suc zero) lt = refl
parsed_4 (suc (suc i)) lt = absurd (omega arith)

loaded_4-HasPhdrs : HasPhdrs (loaded 4) (segments 4)
unfolding le_bytes elf_phnum byte_at
loaded_4-HasPhdrs = record { table = part_of (image 4) 52 64; phdrs = refl; parsed = parsed_4 }

phnum_2 : (type : ℕ) → elf_phnum (image type) ≡ 2
unfolding le_bytes elf_phnum byte_at
phnum_2 type = refl

later : (i : ℕ) → 1 ≤ i → (segments 4 i).p_type ≢ 1
later zero lo = absurd (omega arith)
later (suc i) lo = ground arith

abbrev target : Target
target = record { da = 0; nmemsize = 0; padding = some 1 }

elf_load_collects_example :
    (l : Loading) × (collect room
        (image 1)
        0
        0
        2
        (past hdrs_complete 0 ready_to_load)
        (record { info = some (loaded 1); noffset = 0; nlen = 0 })
        target
      ≡ some (to_load (segments 1) 0 2, l))
    × (l.info ≡ some (info_past (loaded 1) hdrs_complete (elf_phnum (image 1)) post_data_load))
elf_load_collects_example =
    elf_load_collects room (image 1) 0 0 (loaded 1) (segments 1) loaded_1-HasPhdrs hdrs_complete 2 0
      1 0 0 target (sym (phnum_2 1)) (omega arith) (omega (arith, phnum_2 1)) refl

-- The first header is past, and the second is not to be loaded.
elf_load_stays_example :
    let seg = segments 4 (elf_phnum (image 4) - 1) in
    let next = elf_phnum (image 4) % 256 in
    elf_load room
      (image 4)
      0
      0
      (past hdrs_complete 1 ready_to_load)
      (record {
        info = some (info_past (loaded 4) hdrs_complete 1 ready_to_load);
        noffset = 0;
        nlen = 0;
      })
      target
    ≡ some (
      state (past hdrs_complete next ready_to_load),
      record {
        info = some (info_past (loaded 4) hdrs_complete next ready_to_load);
        noffset = seg.p_offset;
        nlen = 0;
      },
      record { da = seg.p_vaddr; nmemsize = 0; padding = some 0 },
    )
elf_load_stays_example =
    elf_load_stays room (image 4) 0 0 (loaded 4) (segments 4) loaded_4-HasPhdrs hdrs_complete 1 0 0
      target (omega (arith, phnum_2 4)) (λ i lo hi. later i lo)
