-- ===== src/Remoteproc/Elf/Load/Collect.antt =====
-- lib/remoteproc/elf_loader.c: a caller that calls `elf_load` again while there is more to load gets every
-- segment to load, in order.
use openamp.Base.{
  ℕ, zero, suc, ◌+◌, ◌-◌, ◌%◌, ◌≤◌, ◌<◌, ◌≡◌, ◌≢◌, refl, ◌∙◌, ap, Bool, true, false, Option, none,
  some, List, [], ◌∷◌, arith, ◌==◌, ◌>>=◌, if◌then◌else◌, Bool-cases, inl, inr,
}
use openamp.Remoteproc.Elf.{
  Stage, ready_to_load, post_data_load, HdrState, LoadState, ElfInfo, Segment, elf_phnum,
}
use openamp.Remoteproc.Elf.Header.{failed, state, Loading, same_stage}
use openamp.Remoteproc.Elf.Segments.{elf_next_load_segment, HasPhdrs, next_load_segment-first}
use openamp.Remoteproc.Elf.Load.{Target, elf_load, load_data, load_segment}

-- What the caller is told of a segment: where it is in the file and its size there, and where it goes and its
-- size there.
pub record Part : Type 0 where
  pub noffset : ℕ
  pub nlen : ℕ
  pub da : ℕ
  pub nmemsize : ℕ

abbrev pub part : Segment → Part
part seg = record {
  noffset = seg.p_offset;
  nlen = seg.p_filesz;
  da = seg.p_vaddr;
  nmemsize = seg.p_memsz;
}

-- The segments to load among `left` headers from number `i` on.
pub to_load : (segs : ℕ → Segment) → (i left : ℕ) → List Part
to_load segs i zero = []
to_load segs i (suc left) =
    let rest = to_load segs (i + 1) left in
    if (segs i).p_type == 1 then part (segs i) ∷ rest else rest

-- The first one to load is followed by those after it.
to_load_next :
    (segs : ℕ → Segment) (left i k after : ℕ)
    → i ≤ k
    → i + left ≡ k + suc after
    → ((j : ℕ) → i ≤ j → j < k → (segs j).p_type ≢ 1)
    → (segs k).p_type ≡ 1
    → to_load segs i left ≡ part (segs k) ∷ to_load segs (k + 1) after
unfolding to_load
to_load_next segs zero i k after le at before load = absurd (omega arith)
to_load_next segs (suc left) i k after le at before load = elim (Bool-cases (i == k)) [
  | inl e ↦
      let same : i ≡ k = ground arith in
      let rest : left ≡ after = omega arith in
      let here : ((segs i).p_type == 1) ≡ true = ground (arith, same, load) in
      rw here (rw (same, rest) refl)
  | inr e ↦
      let here : ((segs i).p_type == 1) ≡ false = ground (arith, before i) in
      rw here (
        to_load_next segs left (i + 1) k after (ground arith) (omega arith)
          (λ j lo hi. before j (omega arith) hi) load)
]

-- The load state and the ELF info when `nseg` headers are past.
abbrev pub past : HdrState → (nseg : ℕ) → Stage → LoadState
past hdrs nseg stage = record { stage = stage; hdrs = hdrs; nseg = nseg }

abbrev pub info_past : ElfInfo → HdrState → (nseg : ℕ) → Stage → ElfInfo
info_past info hdrs nseg stage = record info { load_state = past hdrs nseg stage }

module _ (alloc : (size : ℕ) → Bool) (img : ℕ → ℕ) (offset len : ℕ) where
  -- The caller's loop, with `calls` left: the parts that it is told of until RPROC_LOADER_POST_DATA_LOAD. The
  -- image data that a call is given does not matter here.
  pub collect : (calls : ℕ) → LoadState → Loading → Target → Option (List Part × Loading)
  collect zero last l t = none
  collect (suc calls) last l t = do
    (ret, l, t) ← elf_load alloc img offset len last l t
    elim ret [
      | failed e ↦ none
      | state st ↦
          let this : Part = record {
            noffset = l.noffset;
            nlen = l.nlen;
            da = t.da;
            nmemsize = t.nmemsize;
          } in
          let rest = collect calls st l t in
          if same_stage st.stage post_data_load
          then some (this ∷ [], l)
          else (do (parts, l) ← rest; some (this ∷ parts, l))
    ]

  module _ (info : ElfInfo) (segs : ℕ → Segment) (h : HasPhdrs info segs) (hdrs : HdrState) where
    -- The call in RPROC_LOADER_READY_TO_LOAD where header `k` is the next to load.
    ready_call :
        (nseg k next a b : ℕ) (stage : Stage) (t : Target)
        → elf_next_load_segment
            (elf_phnum info.ehdr + 1)
            (info_past info hdrs nseg ready_to_load)
            nseg
            none
          ≡ some (record { load = true; nseg = k + 1; last = some (segs k) })
        → (if k + 1 == elf_phnum info.ehdr then post_data_load else ready_to_load) ≡ stage
        → (k + 1) % 256 ≡ next
        → elf_load alloc img offset len
            (past hdrs nseg ready_to_load)
            (record { info = some (info_past info hdrs nseg ready_to_load); noffset = a; nlen = b })
            t
          ≡ some (
            state (past hdrs next stage),
            record {
              info = some (info_past info hdrs next stage);
              noffset = (segs k).p_offset;
              nlen = (segs k).p_filesz;
            },
            record {
              da = (segs k).p_vaddr;
              nmemsize = (segs k).p_memsz;
              padding = elim t.padding [ none ↦ none | some p ↦ some 0 ];
            },
          )
    unfolding elf_load load_data load_segment
    ready_call nseg k next a b stage t eq es en = rw (eq, es, en) refl

    -- For an image with all program headers loaded, at most 255 of them, of which the last is to be loaded: a
    -- caller that calls `elf_load` in RPROC_LOADER_READY_TO_LOAD with `nseg` headers past, and again
    -- until RPROC_LOADER_POST_DATA_LOAD, is told of the segments whose type is PT_LOAD from there on, all
    -- of them and in the order of the headers, in no more calls than there are headers left.
    pub elf_load_collects :
        (calls nseg left a b : ℕ) (t : Target)
        → nseg + suc left ≡ elf_phnum info.ehdr
        → left < calls
        → elf_phnum info.ehdr < 256
        → (segs (nseg + left)).p_type ≡ 1
        → (l : Loading) × (collect calls
              (past hdrs nseg ready_to_load)
              (record {
                info = some (info_past info hdrs nseg ready_to_load);
                noffset = a;
                nlen = b;
              })
              t
            ≡ some (to_load segs nseg (suc left), l))
          × (l.info ≡ some (info_past info hdrs (elf_phnum info.ehdr) post_data_load))
    unfolding collect to_load
    elf_load_collects zero nseg left a b t at lt few last = absurd (omega arith)
    elf_load_collects (suc calls) nseg left a b t at lt few last =
        elim (next_load_segment-first (info_past info hdrs nseg ready_to_load) segs
          (record { table = h.table; phdrs = h.phdrs; parsed = h.parsed }) (elf_phnum info.ehdr + 1)
          nseg none (omega arith) (omega arith)) [
            | inr (no_load, rest) ↦ absurd (no_load (nseg + left) (omega arith) (omega arith) last)
            | inl (k, lo, hi, load, before, eq) ↦ elim (Bool-cases (k + 1 == elf_phnum info.ehdr)) [
              | inl e ↦
                  let end : k + 1 ≡ elf_phnum info.ehdr = ground arith in
                  let small : (k + 1) % 256 ≡ elf_phnum info.ehdr = omega arith in
                  let parts = to_load_next segs (suc left) nseg k 0 lo (omega arith) before load in
                  (
                    record {
                      info = some (info_past info hdrs (elf_phnum info.ehdr) post_data_load);
                      noffset = (segs k).p_offset;
                      nlen = (segs k).p_filesz;
                    },
                    rw
                        (
                          ready_call nseg k (elf_phnum info.ehdr) a b post_data_load t eq
                              (rw e refl) small,
                          parts,
                        )
                        refl,
                    refl,
                  )
              | inr e ↦
                  let after = elf_phnum info.ehdr - (k + 2) in
                  let small : (k + 1) % 256 ≡ k + 1 = omega arith in
                  let split : k + 1 + suc after ≡ elf_phnum info.ehdr = ground arith in
                  let same : k + 1 + after ≡ nseg + left = omega arith in
                  let parts =
                    to_load_next segs (suc left) nseg k (suc after) lo (omega arith) before load in
                  let (l, el, done) =
                    elf_load_collects calls (k + 1) after (segs k).p_offset (segs k).p_filesz
                      (record {
                        da = (segs k).p_vaddr;
                        nmemsize = (segs k).p_memsz;
                        padding = elim t.padding [ none ↦ none | some p ↦ some 0 ];
                      })
                      split (omega arith) few (ap (λ i. (segs i).p_type) same ∙ last) in
                  (
                    l,
                    rw
                        (
                          ready_call nseg k (k + 1) a b ready_to_load t eq (rw e refl) small,
                          el,
                          parts,
                        )
                        refl,
                    done,
                  )
            ]
          ]

    -- Where program headers are left but none of them is to be loaded, `elf_load` in
    -- RPROC_LOADER_READY_TO_LOAD stays in it and does not reach RPROC_LOADER_POST_DATA_LOAD; it gives the
    -- address and the offset of the last header, which is not to be loaded, and leaves the size.
    pub elf_load_stays :
        (nseg a b : ℕ) (t : Target)
        → nseg < elf_phnum info.ehdr
        → ((i : ℕ) → nseg ≤ i → i < elf_phnum info.ehdr → (segs i).p_type ≢ 1)
        → let seg = segs (elf_phnum info.ehdr - 1) in
          let next = elf_phnum info.ehdr % 256 in
          elf_load alloc img offset len
            (past hdrs nseg ready_to_load)
            (record { info = some (info_past info hdrs nseg ready_to_load); noffset = a; nlen = b })
            t
          ≡ some (
            state (past hdrs next ready_to_load),
            record {
              info = some (info_past info hdrs next ready_to_load);
              noffset = seg.p_offset;
              nlen = b;
            },
            record {
              da = seg.p_vaddr;
              nmemsize = t.nmemsize;
              padding = elim t.padding [ none ↦ none | some p ↦ some 0 ];
            },
          )
    unfolding elf_load load_data load_segment
    elf_load_stays nseg a b t lt none_left =
        elim (next_load_segment-first (info_past info hdrs nseg ready_to_load) segs
          (record { table = h.table; phdrs = h.phdrs; parsed = h.parsed }) (elf_phnum info.ehdr + 1)
          nseg none (omega arith) (omega arith)) [
            | inl (k, lo, hi, load, before, eq) ↦ absurd (none_left k lo hi load)
            | inr (no_load, (seen, eq, at_end, within)) ↦ rw (eq, within lt) refl
          ]
