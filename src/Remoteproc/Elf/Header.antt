-- ===== src/Remoteproc/Elf/Header.antt =====
-- lib/remoteproc/elf_loader.c: `elf_load_header`, in the steps of the function: the file header, the program
-- headers, the section headers and the names of the sections.
--
-- `img` is the image data, of which `len` bytes are there, from `offset` of the file on; `alloc` says
-- whether an allocation of a size succeeds. An ELF info that is given at ELF_STATE_INIT is of the class of
-- the image.
pub mod Complete
pub mod Tables
use openamp.Base.{
  ℕ, ◌+◌, ◌-◌, ◌*◌, ◌%◌, ◌^◌, Bool, true, false, not, ◌||◌, Option, none, some, ltb, ◌==◌, ◌&&◌,
  if◌then◌else◌, ◌>>=◌,
}
use openamp.Base.Int.{ℤ}
use openamp.Remoteproc.{einval, enomem}
use openamp.Remoteproc.Memory.{add64}
use openamp.Remoteproc.Elf.{
  Block, copy_of, Stage, not_ready, ready_to_load, post_data_load, load_complete, HdrState, init,
  wait_for_phdrs, wait_for_shdrs, wait_for_shstrtab, hdrs_complete, LoadState, state_init,
  state_wait_for_phdrs, ElfInfo, elf_is_64, sizeof_ehdr, elf_info_size, elf_phoff, elf_phentsize,
  elf_phnum, elf_shoff, elf_shentsize, elf_shnum, elf_shstrndx, elf_parse_section,
  elf_get_section_from_index,
}

-- The result: an error code, or a load state.
pub data LoadRet : Type 0 where
  failed : ℤ → LoadRet
  state : LoadState → LoadRet

-- What is behind the pointers: the ELF info, and the part of the file that is wanted next.
pub record Loading : Type 0 where
  pub info : Option ElfInfo
  pub noffset : ℕ
  pub nlen : ℕ

-- A step of the function returns, or goes on with the ELF info and the last load state.
pub data Step : Type 0 where
  done : LoadRet → Loading → Step
  go_on : ElfInfo → Loading → Step

-- Comparison of load states.
abbrev pub same_stage : Stage → Stage → Bool
same_stage not_ready not_ready = true
same_stage ready_to_load ready_to_load = true
same_stage post_data_load post_data_load = true
same_stage load_complete load_complete = true
same_stage _ _ = false

abbrev pub same_hdrs : HdrState → HdrState → Bool
same_hdrs init init = true
same_hdrs wait_for_phdrs wait_for_phdrs = true
same_hdrs wait_for_shdrs wait_for_shdrs = true
same_hdrs wait_for_shstrtab wait_for_shstrtab = true
same_hdrs hdrs_complete hdrs_complete = true
same_hdrs _ _ = false

abbrev pub same_state : LoadState → LoadState → Bool
same_state a b = same_stage a.stage b.stage && same_hdrs a.hdrs b.hdrs && a.nseg == b.nseg

-- What a caller has to give: the `n` bytes from `start` of the file.
abbrev pub ask : ElfInfo → Loading → (start n : ℕ) → Step
ask info l start n = done (state info.load_state) (record l { noffset = start; nlen = n })

-- The test that a part of the file is not within the given one.
abbrev pub outside : (offset len start n : ℕ) → Bool
outside offset len start n = ltb start offset || ltb (add64 offset len) (add64 start n)

abbrev pub blank : (ℕ → ℕ) → ElfInfo
blank img = record {
  ehdr = img;
  load_state = state_wait_for_phdrs;
  phdrs = none;
  shdrs = none;
  shstrtab = none;
}

-- The next step, if a step does not return.
abbrev pub then_step :
    Option Step → (ElfInfo → Loading → Option (LoadRet × Loading)) → Option (LoadRet × Loading)
then_step none f = none
then_step (some (done r l)) f = some (r, l)
then_step (some (go_on info l)) f = f info l

-- The last load state that is returned where no step does: ELF_STATE_WAIT_FOR_PHDRS after the file
-- header, else the given one.
abbrev pub last_after : LoadState → LoadState
last_after last = if same_state last state_init then state_wait_for_phdrs else last

module _ (alloc : (size : ℕ) → Bool) (img : ℕ → ℕ) (offset len : ℕ) where
  abbrev pub put : ElfInfo → Loading → Step
  put info l = go_on info (record l { info = some info })

  pub ehdr_step : (last_load_state : LoadState) → Loading → Option Step
  ehdr_step last l =
      if same_state last state_init
      then (if ltb 4 len
          then some (
              let is_64 = elf_is_64 img in
              if ltb len (sizeof_ehdr is_64)
              then done (state state_init) (record l { noffset = 0; nlen = sizeof_ehdr is_64 })
              else elim l.info [
                | some info ↦ put (record info { ehdr = img; load_state = state_wait_for_phdrs }) l
                | none ↦
                    if alloc (elf_info_size is_64)
                    then put (blank img) l
                    else done (failed enomem) l
              ])
          else none)
      else elim l.info [
        | none ↦ none
        | some info ↦
            some (if same_state last info.load_state then go_on info l else done (failed einval) l)
      ]

  pub phdrs_step : ElfInfo → Loading → Option Step
  phdrs_step info l =
      if same_state info.load_state state_wait_for_phdrs
      then (let start = elf_phoff info.ehdr in
          let size = elf_phnum info.ehdr * elf_phentsize info.ehdr in
          if outside offset len start size
          then some (ask info l start size)
          else (if not (alloc size)
              then some
                  (done (failed enomem) (record l { info = some (record info { phdrs = none }) }))
              else (do
                b ← copy_of img len (start - offset) size
                some (
                    put
                      (record info {
                        phdrs = some b;
                        load_state = record {
                          stage = ready_to_load;
                          hdrs = wait_for_shdrs;
                          nseg = 0;
                        };
                      })
                      l))))
      else some (go_on info l)

  pub shdrs_step : ElfInfo → Loading → Option Step
  shdrs_step info l =
      if same_hdrs info.load_state.hdrs wait_for_shdrs
      then (let start = elf_shoff info.ehdr in
          let size = elf_shnum info.ehdr * elf_shentsize info.ehdr in
          if elf_shnum info.ehdr == 0
          then some (
              let st = record info.load_state { hdrs = hdrs_complete } in
              done (state st)
                (record l { info = some (record info { load_state = st }); nlen = 0 }))
          else (if outside offset len start size
              then some (ask info l start size)
              else (if not (alloc size)
                  then some (
                      done (failed enomem)
                        (record l { info = some (record info { shdrs = none }) }))
                  else (do
                    b ← copy_of img len (start - offset) size
                    some (
                        put
                          (record info {
                            shdrs = some b;
                            load_state = record info.load_state { hdrs = wait_for_shstrtab };
                          })
                          l)))))
      else some (go_on info l)

  pub shstrtab_step : (last_load_state : LoadState) → ElfInfo → Loading → Option (LoadRet × Loading)
  shstrtab_step last info l =
      if same_hdrs info.load_state.hdrs wait_for_shstrtab
      then elim (elf_get_section_from_index info (elf_shstrndx info.ehdr)) [
        | none ↦ some (failed einval, l)
        | some (b, off) ↦ do
          s ← elf_parse_section (elf_is_64 info.ehdr) b off
          (if outside offset len s.sh_offset s.sh_size
              then some
                  (state info.load_state, record l { noffset = s.sh_offset; nlen = s.sh_size })
              else (if not (alloc s.sh_size)
                  then some
                      (failed enomem, record l { info = some (record info { shstrtab = none }) })
                  else (do
                    names ← copy_of img len (s.sh_offset - offset) s.sh_size
                    let st = record info.load_state { hdrs = hdrs_complete }
                    some (
                      state st,
                      record l {
                        info = some (record info { shstrtab = some names; load_state = st });
                        nlen = 0;
                      },
                    ))))
      ]
      else some (state last, l)

  -- `elf_load_header`
  pub elf_load_header : (last_load_state : LoadState) → Loading → Option (LoadRet × Loading)
  unfolding ehdr_step phdrs_step shdrs_step shstrtab_step
  elf_load_header last l = then_step (ehdr_step last l) (λ info l.
      then_step (phdrs_step info l) (λ info l.
        then_step (shdrs_step info l) (λ info l. shstrtab_step (last_after last) info l)))
