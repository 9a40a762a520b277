-- ===== src/Remoteproc/Elf/Header/Tables.antt =====
-- lib/remoteproc/elf_loader.c: what each step of `elf_load_header` does with a part of the file that has the
-- table it waits for, and with one that has not.
use openamp.Base.{
  ℕ, ◌+◌, ◌-◌, ◌*◌, ◌^◌, ◌≤◌, ◌<◌, ◌≡◌, ◌≢◌, refl, ap, Bool, true, false, none, some, arith, leb,
  ◌==◌,
}
use std.Path.{fun_ext}
use openamp.Remoteproc.Elf.{
  Block, copy_of, ready_to_load, wait_for_shdrs, wait_for_shstrtab, hdrs_complete, LoadState,
  state_wait_for_phdrs, ElfInfo, Section, elf_is_64, sizeof_shdr, elf_phoff, elf_phentsize,
  elf_phnum, elf_shoff, elf_shentsize, elf_shnum, elf_shstrndx, elf_parse_section,
}
use openamp.Remoteproc.Elf.Header.{
  state, Loading, done, go_on, outside, ehdr_step, phdrs_step, shdrs_step, shstrtab_step, then_step,
  elf_load_header,
}

-- The `n` bytes from `start` of a file.
abbrev pub part_of : (file : ℕ → ℕ) → (start n : ℕ) → Block
part_of file start n = record { size = n; at = λ i. file (start + i) }

-- Where the headers of a file are: no table wraps around, there are sections, and one of them has the names.
pub record HasHeaders (file : ℕ → ℕ) : Type 0 where
  pub names : Section
  pub phdrs_fit : elf_phoff file + elf_phnum file * elf_phentsize file < 2 ^ 64
  pub shdrs_fit : elf_shoff file + elf_shnum file * elf_shentsize file < 2 ^ 64
  pub names_fit : names.sh_offset + names.sh_size < 2 ^ 64
  pub sections : elf_shnum file ≢ 0
  pub index : elf_shstrndx file < elf_shnum file
  pub parsed :
      elf_parse_section
        (elf_is_64 file)
        (part_of file (elf_shoff file) (elf_shnum file * elf_shentsize file))
        (elf_shstrndx file * sizeof_shdr (elf_is_64 file))
      ≡ some names

abbrev pub asking : ElfInfo → (noffset nlen : ℕ) → Loading
asking info noffset nlen = record { info = some info; noffset = noffset; nlen = nlen }

module _ (file : ℕ → ℕ) where
  -- The ELF info with the tables of the file up to each step.
  abbrev pub with_ehdr : ElfInfo
  with_ehdr = record {
    ehdr = file;
    load_state = state_wait_for_phdrs;
    phdrs = none;
    shdrs = none;
    shstrtab = none;
  }

  abbrev pub with_phdrs : ElfInfo
  with_phdrs = record with_ehdr {
    load_state = record { stage = ready_to_load; hdrs = wait_for_shdrs; nseg = 0 };
    phdrs = some (part_of file (elf_phoff file) (elf_phnum file * elf_phentsize file));
  }

  abbrev pub with_shdrs : ElfInfo
  with_shdrs = record with_phdrs {
    load_state = record { stage = ready_to_load; hdrs = wait_for_shstrtab; nseg = 0 };
    shdrs = some (part_of file (elf_shoff file) (elf_shnum file * elf_shentsize file));
  }

  abbrev pub with_names : Section → ElfInfo
  with_names names = record with_shdrs {
    load_state = record { stage = ready_to_load; hdrs = hdrs_complete; nseg = 0 };
    shstrtab = some (part_of file names.sh_offset names.sh_size);
  }

module _ (alloc : (size : ℕ) → Bool) (file : ℕ → ℕ) (h : HasHeaders file)
    (room : (size : ℕ) → alloc size ≡ true) where
  -- What is not outside of the given part is copied from it.
  copied :
      (offset len start n : ℕ)
      → start + n < 2 ^ 64
      → offset + len < 2 ^ 64
      → outside offset len start n ≡ false
      → copy_of (λ i. file (offset + i)) len (start - offset) n ≡ some (part_of file start n)
  copied offset len start n fits given inside =
      let from : offset ≤ start = ground arith in
      let same : (λ i. file (offset + (start - offset + i))) ≡ (λ i. file (start + i)) =
        fun_ext (λ i. ap file (omega arith)) in
      let enough : leb (start - offset + n) len ≡ true = ground arith in
      rw enough (ap (λ f. some (record { size = n; at = f })) same)

  pub not_outside : (start n : ℕ) → outside start n start n ≡ false
  not_outside start n = ground arith

  -- Each step on a part of the file that has what it wants, and on one that has not.
  module _ (offset len a b : ℕ) (given : offset + len < 2 ^ 64) where
    abbrev at : ElfInfo → Loading
    at info = asking info a b

    abbrev img : ℕ → ℕ
    img i = file (offset + i)

    pub names_inside :
        (last : LoadState)
        → outside offset len h.names.sh_offset h.names.sh_size ≡ false
        → shstrtab_step alloc img offset len last (with_shdrs file) (at (with_shdrs file))
          ≡ some (
            state ((with_names file) h.names).load_state,
            record { info = some ((with_names file) h.names); noffset = a; nlen = 0 },
          )
    unfolding shstrtab_step
    names_inside last inside =
        let index : leb (elf_shnum file) (elf_shstrndx file) ≡ false = ground (arith, h.index) in
        let copy = copied offset len h.names.sh_offset h.names.sh_size h.names_fit given inside in
        rw (index, h.parsed, inside, room h.names.sh_size, copy) refl

    pub names_outside :
        (last : LoadState)
        → outside offset len h.names.sh_offset h.names.sh_size ≡ true
        → shstrtab_step alloc img offset len last (with_shdrs file) (at (with_shdrs file))
          ≡ some (
            state (with_shdrs file).load_state,
            record {
              info = some (with_shdrs file);
              noffset = h.names.sh_offset;
              nlen = h.names.sh_size;
            },
          )
    unfolding shstrtab_step
    names_outside last out =
        let index : leb (elf_shnum file) (elf_shstrndx file) ≡ false = ground (arith, h.index) in
        rw (index, h.parsed, out) refl

    pub shdrs_inside :
        outside offset len (elf_shoff file) (elf_shnum file * elf_shentsize file) ≡ false
        → shdrs_step alloc img offset len (with_phdrs file) (at (with_phdrs file))
          ≡ some (go_on (with_shdrs file) (at (with_shdrs file)))
    unfolding shdrs_step
    shdrs_inside inside =
        let size = elf_shnum file * elf_shentsize file in
        let some_sections : (elf_shnum file == 0) ≡ false = ground (arith, h.sections) in
        let copy = copied offset len (elf_shoff file) size h.shdrs_fit given inside in
        rw (some_sections, inside, room size, copy) refl

    pub shdrs_outside :
        outside offset len (elf_shoff file) (elf_shnum file * elf_shentsize file) ≡ true
        → shdrs_step alloc img offset len (with_phdrs file) (at (with_phdrs file))
          ≡ some (
              done (state (with_phdrs file).load_state) (record {
                info = some (with_phdrs file);
                noffset = elf_shoff file;
                nlen = elf_shnum file * elf_shentsize file;
              }))
    unfolding shdrs_step
    shdrs_outside out =
        let some_sections : (elf_shnum file == 0) ≡ false = ground (arith, h.sections) in
        rw (some_sections, out) refl

    pub phdrs_inside :
        outside offset len (elf_phoff file) (elf_phnum file * elf_phentsize file) ≡ false
        → phdrs_step alloc img offset len (with_ehdr file) (at (with_ehdr file))
          ≡ some (go_on (with_phdrs file) (at (with_phdrs file)))
    unfolding phdrs_step
    phdrs_inside inside =
        let size = elf_phnum file * elf_phentsize file in
        let copy = copied offset len (elf_phoff file) size h.phdrs_fit given inside in
        rw (inside, room size, copy) refl

    pub phdrs_outside :
        outside offset len (elf_phoff file) (elf_phnum file * elf_phentsize file) ≡ true
        → phdrs_step alloc img offset len (with_ehdr file) (at (with_ehdr file))
          ≡ some (
              done (state (with_ehdr file).load_state) (record {
                info = some (with_ehdr file);
                noffset = elf_phoff file;
                nlen = elf_phnum file * elf_phentsize file;
              }))
    unfolding phdrs_step
    phdrs_outside out = rw out refl

    -- A call in each state reaches the step of that state.
    pub names_call :
        elf_load_header alloc img offset len (with_shdrs file).load_state (at (with_shdrs file))
        ≡ shstrtab_step alloc img offset len
            (with_shdrs file).load_state
            (with_shdrs file)
            (at (with_shdrs file))
    unfolding elf_load_header ehdr_step phdrs_step shdrs_step
    names_call = refl

    pub shdrs_call :
        elf_load_header alloc img offset len (with_phdrs file).load_state (at (with_phdrs file))
        ≡ then_step
            (shdrs_step alloc img offset len (with_phdrs file) (at (with_phdrs file)))
            (shstrtab_step alloc img offset len (with_phdrs file).load_state)
    unfolding elf_load_header ehdr_step phdrs_step
    shdrs_call = refl

    pub phdrs_call :
        elf_load_header alloc img offset len (with_ehdr file).load_state (at (with_ehdr file))
        ≡ then_step
            (phdrs_step alloc img offset len (with_ehdr file) (at (with_ehdr file)))
            (λ info l.
              then_step
                (shdrs_step alloc img offset len info l)
                (shstrtab_step alloc img offset len (with_ehdr file).load_state))
    unfolding elf_load_header ehdr_step
    phdrs_call = refl
