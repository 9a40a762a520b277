-- ===== src/Remoteproc/Elf/Load.antt =====
-- lib/remoteproc/elf_loader.c: `elf_load`, which gives the segments to load one by one.
pub mod Collect
use openamp.Base.{
  ℕ, zero, suc, ◌+◌, ◌-◌, ◌%◌, ◌^◌, Bool, true, false, Option, none, some, ◌==◌, if◌then◌else◌,
  ◌>>=◌,
}
use openamp.Base.Int.{ℤ}
use openamp.Remoteproc.{einval}
use openamp.Remoteproc.Elf.{
  Block, Stage, not_ready, ready_to_load, post_data_load, load_complete, HdrState, hdrs_complete,
  LoadState, ElfInfo, Segment, elf_phnum,
}
use openamp.Remoteproc.Elf.Header.{
  LoadRet, failed, state, Loading, same_stage, same_hdrs, elf_load_header,
}
use openamp.Remoteproc.Elf.Segments.{Found, elf_next_load_segment}

-- RPROC_LOAD_ANYADDR
abbrev pub load_anyaddr : ℕ
load_anyaddr = 2 ^ 64 - 1

-- What is behind the other pointers: the device address, the size in memory and the padding, which may be
-- NULL.
pub record Target : Type 0 where
  pub da : ℕ
  pub nmemsize : ℕ
  pub padding : Option ℕ

-- The ELF info gets a load state, which is also the result.
abbrev pub with_state : ElfInfo → LoadState → Loading → Target → Option (LoadRet × Loading × Target)
with_state info st l t =
    some (state st, record l { info = some (record info { load_state = st }) }, t)

-- `*noffset` and `*da` after `elf_next_load_segment`: of the last header that it parsed, if any.
abbrev pub offset_of : Option Segment → (noffset : ℕ) → ℕ
offset_of none noffset = noffset
offset_of (some seg) noffset = seg.p_offset

abbrev pub vaddr_of : Option Segment → (da : ℕ) → ℕ
vaddr_of none da = da
vaddr_of (some seg) da = seg.p_vaddr

abbrev pub size_of : Option Segment → ℕ
size_of none = 0
size_of (some seg) = seg.p_filesz

abbrev pub memsize_of : Option Segment → ℕ
memsize_of none = 0
memsize_of (some seg) = seg.p_memsz

-- RPROC_LOADER_READY_TO_LOAD: the next segment.
unfoldable pub load_segment : ElfInfo → Loading → Target → Option (LoadRet × Loading × Target)
load_segment info l t = do
  f ← elf_next_load_segment (elf_phnum info.ehdr + 1) info info.load_state.nseg none
  let st = record info.load_state { nseg = f.nseg % 256 }
  let l = record l { noffset = offset_of f.last l.noffset }
  let t = record t { da = vaddr_of f.last t.da }
  elim f.load [
    | false ↦ with_state info st l t
    | true ↦
        with_state info
          (record st { stage = if f.nseg == elf_phnum info.ehdr then post_data_load else st.stage })
          (record l { nlen = size_of f.last }) (record t { nmemsize = memsize_of f.last })
  ]

module _ (alloc : (size : ℕ) → Bool) (img : ℕ → ℕ) (offset len : ℕ) where
  -- The headers again, with the last result as the last load state; an error code is no load state of the
  -- ELF info.
  abbrev pub header_again : LoadRet → Loading → Option (LoadRet × Loading)
  header_again (failed e) l = some (failed einval, l)
  header_again (state last) l = elf_load_header alloc img offset len last l

  -- RPROC_LOADER_POST_DATA_LOAD with headers that are not complete, after `elf_load_header` was called.
  pub headers_after : LoadRet × Loading → Target → Option (LoadRet × Loading × Target)
  headers_after (failed e, l) t = some (failed e, l, t)
  headers_after (state last, l) t = elim l.info [
    | none ↦ none
    | some info ↦
        let t = record t { da = load_anyaddr } in
        if same_hdrs last.hdrs hdrs_complete
        then with_state info (record info.load_state { stage = load_complete })
            (record l { nlen = 0 }) t
        else with_state info info.load_state l t
  ]

  pub post_load : LoadRet → ElfInfo → Loading → Target → Option (LoadRet × Loading × Target)
  unfolding headers_after
  post_load last info l t =
      if same_hdrs info.load_state.hdrs hdrs_complete
      then with_state info (record info.load_state { stage = load_complete })
          (record l { nlen = 0 }) t
      else (do r ← header_again last l; headers_after r t)

  -- `elf_load` after its first part, with the last load state or error.
  unfoldable pub load_data : LoadRet → Loading → Target → Option (LoadRet × Loading × Target)
  unfolding load_segment post_load
  load_data last l t = elim l.info [
    | none ↦ none
    | some info ↦
        let t = record t { padding = elim t.padding [ none ↦ none | some p ↦ some 0 ] } in
        if same_stage info.load_state.stage ready_to_load
        then load_segment info l t
        else (if same_stage info.load_state.stage post_data_load
            then post_load last info l t
            else with_state info info.load_state l t)
  ]

  -- The first part, where the headers were not loaded: its result is the result of the function where it is
  -- RPROC_LOADER_NOT_READY, which an error code is not.
  pub after_header : LoadRet × Loading → Target → Option (LoadRet × Loading × Target)
  unfolding load_data
  after_header (failed e, l) t = load_data (failed e) l t
  after_header (state last, l) t =
      if same_stage last.stage not_ready
      then some (state last, l, record t { da = load_anyaddr })
      else load_data (state last) l t

  unfoldable pub elf_load :
      (last_load_state : LoadState) → Loading → Target → Option (LoadRet × Loading × Target)
  unfolding load_data after_header
  elf_load last l t =
      if same_stage last.stage not_ready
      then (do r ← elf_load_header alloc img offset len last l; after_header r t)
      else load_data (state last) l t
