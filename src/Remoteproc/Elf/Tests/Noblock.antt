-- ===== src/Remoteproc/Elf/Tests/Noblock.antt =====
-- `remoteproc_load_noblock` applied to the image, on a remote processor with one memory of 256 bytes.
use openamp.Base.{
  ℕ, ◌+◌, ◌++◌, ◌⊎◌, All, ◌-◌, ◌≤◌, ◌≡◌, refl, Bool, true, false, none, some, List, [], ◌∷◌, arith,
}
use openamp.Base.Int.{pos}
use openamp.Rpmsg.Tests.{bits}
use openamp.Remoteproc.{RemoteprocMem, ready, einval, bad_phys}
use openamp.Remoteproc.Memory.{MetalIo}
use openamp.Remoteproc.Memory.Translate.{Covers}
use openamp.Remoteproc.Image.{
  ImageState, Outputs, BlockIo, handed, released, remoteproc_load_noblock,
}
use openamp.Remoteproc.Image.Segment.{told, noblock_segment, noblock_unmapped}
use openamp.Remoteproc.Elf.Sections.{
  RscPlace, elf_locate_rsc_table, elf_get_section_from_name, find_section, same_name,
}
use openamp.Remoteproc.Elf.{
  ready_to_load, load_complete, hdrs_complete, ElfInfo, le_bytes, elf_phnum, elf_shnum,
  elf_parse_segment, elf_parse_section,
}
use openamp.Remoteproc.Elf.Header.{Loading}
use openamp.Remoteproc.Elf.Segments.{elf_next_load_segment}
use openamp.Remoteproc.Elf.Load.{Target, elf_load, load_data, load_segment}
use openamp.Remoteproc.Elf.Load.Collect.{past, info_past}
use openamp.Remoteproc.Elf.Tests.{byte_at, image, room, loaded}

abbrev small_memory : RemoteprocMem
small_memory = record { da = 0; pa = 0x1000; size = 0x100; name = 0x61 ∷ []; io = 5 }

abbrev no_bits : ℕ → Bool
no_bits i = false

abbrev ready_state : ImageState (ℕ → Bool) ℕ
ready_state = record {
  rproc = record { state = ready; mems = small_memory ∷ []; bitmap = no_bits };
  platform = 0;
  loader = true;
  bootaddr = 0;
  rsc_table = 0;
  rsc_len = 0;
  rsc_io = 0;
}

abbrev same_io : MetalIo
same_io = record {
  virt_to_offset = λ io va. bad_phys;
  phys_to_offset = λ io pa. pa;
  phys_to_virt = λ io pa. pa;
}

abbrev no_blocks : BlockIo ℕ
no_blocks = record {
  block_read = λ p io off size. (pos 0, λ i. 0);
  block_write = λ p io off b size. (pos 0, p);
}

abbrev nowhere : RscPlace
nowhere = record { da = 0; offset = 0; size = 0 }

abbrev outputs : Outputs
outputs = record { pa = 0; io = 0; noffset = 0; nlen = 0; nmlen = 0; padding = 1 }

-- The image info after the first segment was told.
abbrev told_1 : Loading
told_1 = record {
  info = some (info_past (loaded 1) hdrs_complete 1 ready_to_load);
  noffset = 8;
  nlen = 4;
}

abbrev target_1 : Target
target_1 = record { da = 16; nmemsize = 6; padding = some 0 }

noblock_segment_example :
    let r =
      remoteproc_load_noblock bits same_io none none no_blocks room 0 true
        (image 1)
        0
        0
        nowhere
        (some (loaded 1))
        outputs
        ready_state in
    (All (λ mem. ¬ Covers 16 6 mem) (small_memory ∷ [])
      × (r
          ≡ some
              (einval, released told_1.info, told outputs told_1 target_1 bad_phys 0, ready_state)))
    ⊎ ((pre post : List RemoteprocMem) × (mem : RemoteprocMem) × (small_memory ∷ []
          ≡ pre ++ (mem ∷ post))
        × All (λ m. ¬ Covers 16 6 m) pre
        × Covers 16 6 mem
        × (let pa = mem.pa + (16 - mem.da) in
            (r
              ≡ some
                  (pos 0, handed told_1.info, told outputs told_1 target_1 pa mem.io, ready_state))
            × (pa + 6 ≤ mem.pa + mem.size)))
unfolding elf_load load_data load_segment elf_next_load_segment elf_parse_segment elf_phnum le_bytes
    byte_at
noblock_segment_example =
    noblock_segment bits same_io none no_blocks room 0 (image 1) 0 0 nowhere ready_state outputs
      (loaded 1) refl refl (past hdrs_complete 1 ready_to_load) told_1 target_1 refl refl
      (omega arith) (omega arith) (omega arith) ((omega arith, omega arith), tt)

-- The image is loaded, and its one section is ".resource_table", of 148 bytes at 0x5000.
abbrev complete : ElfInfo
complete = record (loaded 1) {
  load_state = record { stage = load_complete; hdrs = hdrs_complete; nseg = 2 };
  shdrs = some (record { size = 40; at = byte_at ((13, 0x50) ∷ (16, 200) ∷ (20, 148) ∷ []) });
  shstrtab = some (record {
    size = 16;
    at = byte_at (
        (0, 0x2e)
        ∷ (1, 0x72)
        ∷ (2, 0x65)
        ∷ (3, 0x73)
        ∷ (4, 0x6f)
        ∷ (5, 0x75)
        ∷ (6, 0x72)
        ∷ (7, 0x63)
        ∷ (8, 0x65)
        ∷ (9, 0x5f)
        ∷ (10, 0x74)
        ∷ (11, 0x61)
        ∷ (12, 0x62)
        ∷ (13, 0x6c)
        ∷ (14, 0x65)
        ∷ []);
  });
}

noblock_unmapped_example :
    remoteproc_load_noblock bits same_io none none no_blocks room 0 true
      (image 1)
      0
      0
      nowhere
      (some complete)
      outputs
      ready_state
    ≡ some (pos 0, released (some complete), outputs, ready_state)
unfolding elf_locate_rsc_table elf_get_section_from_name find_section same_name elf_parse_section
    elf_shnum le_bytes byte_at
noblock_unmapped_example =
    noblock_unmapped bits same_io none no_blocks room 0 (image 1) 0 0 nowhere ready_state outputs
      complete refl refl (record { da = 0x5000; offset = 200; size = 148 }) refl refl (omega arith)
      refl refl (omega arith) ((omega arith, omega arith), tt) ((λ c. absurd (omega arith)), tt)
