-- ===== src/Remoteproc/Image/Segment.antt =====
-- lib/remoteproc/remoteproc.c: where `remoteproc_load_noblock` puts a segment of an ELF image, and what it returns
-- where the resource table cannot be mapped.
use openamp.Base.{
  ℕ, ◌+◌, ◌-◌, ◌^◌, ◌≤◌, ◌<◌, ◌≡◌, ◌≢◌, ◌⊎◌, inl, inr, ◌∙◌, subst, All-append, Bool, true, false,
  Option, none, some, List, ◌∷◌, ◌++◌, All, arith, ◌==◌,
}
use openamp.Base.Int.{pos}
use openamp.Rpmsg.{MetalBitmap}
use openamp.Remoteproc.{RemoteprocMem, bad_phys, einval, ready}
use openamp.Remoteproc.Memory.{MetalIo}
use openamp.Remoteproc.Memory.Translate.{Covers, Fits, mmap_da, mmap-bad}
use openamp.Remoteproc.RscTable.{HandleRsc}
use openamp.Remoteproc.Elf.{ready_to_load, load_complete, LoadState, ElfInfo}
use openamp.Remoteproc.Elf.Header.{state, Loading}
use openamp.Remoteproc.Elf.Load.{Target, load_anyaddr, elf_load}
use openamp.Remoteproc.Elf.Sections.{RscPlace, elf_locate_rsc_table}
use openamp.Remoteproc.Image.{
  ImageState, Outputs, handed, released, BlockIo, padding_of, load_headers, load_data, place_data,
  finish, load_rsc, remoteproc_load_noblock,
}

-- The outputs that a call leaves which `elf_load` told of a segment.
abbrev pub told : (o : Outputs) → Loading → Target → (pa io : ℕ) → Outputs
told o l t pa io = record {
  pa = pa;
  io = io;
  noffset = l.noffset;
  nlen = l.nlen;
  nmlen = t.nmemsize;
  padding = padding_of t o.padding;
}

module _ {B P : Type 0} (m : MetalBitmap B) (metal : MetalIo) (handle_rsc : Option (HandleRsc P))
    (blocks : BlockIo P) (alloc : (size : ℕ) → Bool) (lrsc_table : ℕ) (img : ℕ → ℕ) (offset len : ℕ)
    (place : RscPlace) (s : ImageState B P) (o : Outputs) (info : ElfInfo)
    (is_ready : s.rproc.state ≡ ready) (known : s.loader ≡ true) where
  -- A call of `remoteproc_load_noblock` with an image info in RPROC_LOADER_READY_TO_LOAD, for which
  -- `elf_load` tells of a segment with data in the file, with a size in memory and inside the
  -- address space, on a remote processor in RPROC_READY whose loader is set, without a `mmap` of
  -- the platform, and whose memories do not run over the end of the address space. If a memory
  -- covers the segment, the call returns 0, with the place of the data in the file, the region of
  -- the first memory that covers it and the physical address as far into that memory as the
  -- segment's address is, and the segment fits there; the info goes to the caller. Else the call
  -- returns -RPROC_EINVAL and releases the info. The remote processor stays as it was.
  pub noblock_segment :
      (st : LoadState) (l : Loading) (t : Target)
      → info.load_state.stage ≡ ready_to_load
      → elf_load alloc img offset len info.load_state
          (record { info = some info; noffset = o.noffset; nlen = 0 })
          (record { da = load_anyaddr; nmemsize = o.nmlen; padding = some o.padding })
        ≡ some (state st, l, t)
      → l.nlen ≢ 0
      → 0 < t.nmemsize
      → t.da + t.nmemsize < 2 ^ 64
      → All Fits s.rproc.mems
      → let r =
          remoteproc_load_noblock m metal none handle_rsc blocks alloc lrsc_table true img offset
            len place
            (some info)
            o
            s in
        (All (λ mem. ¬ Covers t.da t.nmemsize mem) s.rproc.mems
          × (r
              ≡ some
                  (einval, released l.info, told o l t bad_phys o.io, record s { loader = true })))
        ⊎ ((pre post : List RemoteprocMem) × (mem : RemoteprocMem) × (s.rproc.mems
              ≡ pre ++ (mem ∷ post))
            × All (λ m. ¬ Covers t.da t.nmemsize m) pre
            × Covers t.da t.nmemsize mem
            × (let pa = mem.pa + (t.da - mem.da) in
                (r ≡ some (pos 0, handed l.info, told o l t pa mem.io, record s { loader = true }))
                × (pa + t.nmemsize ≤ mem.pa + mem.size)))
  unfolding remoteproc_load_noblock load_headers load_data place_data
  noblock_segment st l t stage loaded more sized inside fits =
      let s1 : ImageState B P = record s { loader = true } in
      let o1 : Outputs = record (told o l t o.pa o.io) { nmlen = t.nmemsize } in
      let proper : t.da ≢ bad_phys = omega arith in
      let step : remoteproc_load_noblock m metal none handle_rsc blocks alloc lrsc_table true img
            offset len place (some info) o s
          ≡ place_data m metal none handle_rsc blocks alloc lrsc_table true place st l t o1 s1 =
        ground (arith, is_ready, known, stage, loaded) in
      let same = mmap-bad metal s.rproc none s.platform t.da t.nmemsize 0 o.io in
      let any : (t.da == load_anyaddr) ≡ false = ground arith in
      let wanted : (l.nlen == 0) ≡ false = ground arith in
      elim (mmap_da metal t.da t.nmemsize proper inside s.rproc none s.platform 0 o.io fits) [
        | inl (no_cover, eq) ↦ inl (no_cover, step ∙ ground (arith, any, same, eq))
        | inr (pre, post, mem, split, a, c, (eq, within)) ↦
            let bounded : Fits mem =
              ((All-append Fits pre (mem ∷ post)).1 (subst (All Fits) split fits)).1.0 in
            let placed : (mem.pa + (t.da - mem.da) == bad_phys) ≡ false =
              ground (arith, within, bounded) in
            inr (
              pre,
              post,
              mem,
              split,
              a,
              c,
              (step ∙ ground (arith, any, same, eq, placed, wanted), within),
            )
      ]

  -- A call of `remoteproc_load_noblock` on a remote processor in RPROC_READY whose loader is set,
  -- with an image info in RPROC_LOADER_LOAD_COMPLETE and a resource table inside the address space
  -- that no memory of the remote processor covers, without a `mmap` of the platform, with memory
  -- for the copy, memories that do not run over the end of the address space, and `*io` NULL
  -- before: the call returns 0, although it has not handled the resource table or set the boot
  -- address, and has released the info.
  pub noblock_unmapped :
      (found : RscPlace)
      → info.load_state.stage ≡ load_complete
      → elf_locate_rsc_table (some info) place ≡ some (pos 0, found)
      → 0 < found.size
      → alloc found.size ≡ true
      → o.io ≡ 0
      → found.da + found.size < 2 ^ 64
      → All Fits s.rproc.mems
      → All (λ mem. ¬ Covers found.da found.size mem) s.rproc.mems
      → remoteproc_load_noblock m metal none handle_rsc blocks alloc lrsc_table true img offset len
          place
          (some info)
          o
          s
        ≡ some
            (pos 0, released (some info), record o { nlen = 0; io = 0 }, record s { loader = true })
  unfolding remoteproc_load_noblock load_headers load_data finish load_rsc
  noblock_unmapped found stage located there room no_io inside fits uncovered =
      let proper : found.da ≢ bad_phys = omega arith in
      elim (mmap_da metal found.da found.size proper inside s.rproc none s.platform 0 o.io fits) [
        | inl (no_cover, eq) ↦
            ground (arith, is_ready, known, stage, located, there, room, no_io, eq)
        | inr (pre, post, mem, split, a, c, rest) ↦ absurd (
            ((All-append (λ mem. ¬ Covers found.da found.size mem) pre (mem ∷ post)).1
                (subst (All (λ mem. ¬ Covers found.da found.size mem)) split uncovered)).1.0
              c)
      ]
