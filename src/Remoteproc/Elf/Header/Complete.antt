-- ===== src/Remoteproc/Elf/Header/Complete.antt =====
-- lib/remoteproc/elf_loader.c: a caller that gives `elf_load_header` the part of the file that it asks for
-- gets all headers.
use openamp.Base.{
  ℕ, zero, suc, ◌+◌, ◌*◌, ◌^◌, ◌≤◌, ◌<◌, ◌≡◌, refl, ap, sym, subst, Bool, true, false, Option, none,
  some, arith, ltb, if◌then◌else◌, Bool-cases, inl, inr,
}
use std.Path.{fun_ext}
use openamp.Remoteproc.Elf.{
  HdrState, hdrs_complete, LoadState, state_init, state_wait_for_phdrs, ElfInfo, elf_is_64,
  sizeof_ehdr, elf_info_size, elf_phoff, elf_phentsize, elf_phnum, elf_shoff, elf_shentsize,
  elf_shnum,
}
use openamp.Remoteproc.Elf.Header.Tables.{
  HasHeaders, asking, with_ehdr, with_phdrs, with_shdrs, with_names, names_inside, names_outside,
  names_call, shdrs_inside, shdrs_outside, shdrs_call, phdrs_inside, phdrs_outside, phdrs_call,
  not_outside,
}
use openamp.Remoteproc.Elf.Header.{
  LoadRet, failed, state, Loading, outside, ehdr_step, phdrs_step, shdrs_step, shstrtab_step,
  then_step, elf_load_header,
}

abbrev pub is_complete : HdrState → Bool
is_complete hdrs_complete = true
is_complete _ = false

-- A first call with `len` bytes of an image.
abbrev pub first_call :
    (alloc : (size : ℕ) → Bool) → (img : ℕ → ℕ) → (len a b : ℕ) → Option (LoadRet × Loading)
first_call alloc img len a b =
    elf_load_header alloc img 0 len state_init (record { info = none; noffset = a; nlen = b })

module _ (alloc : (size : ℕ) → Bool) (file : ℕ → ℕ) where
  -- After a call, the caller calls again with the part of the file that was asked for, until the headers are
  -- complete or an error comes; `fuel` more calls.
  pub go_through : (fuel : ℕ) → Option (LoadRet × Loading) → Option (LoadRet × Loading)
  go_through fuel none = none
  go_through fuel (some (failed e, l)) = some (failed e, l)
  go_through zero (some (state st, l)) = if is_complete st.hdrs then some (state st, l) else none
  go_through (suc fuel) (some (state st, l)) =
      let rest =
        go_through fuel (elf_load_header alloc (λ i. file (l.noffset + i)) l.noffset l.nlen st l) in
      if is_complete st.hdrs then some (state st, l) else rest

  module _ (h : HasHeaders file) (room : (size : ℕ) → alloc size ≡ true) where
    abbrev pub Ends : (fuel : ℕ) → Option (LoadRet × Loading) → Type 0
    Ends fuel r =
        (noffset : ℕ) × (go_through fuel r
          ≡ some (
            state ((with_names file) h.names).load_state,
            record { info = some ((with_names file) h.names); noffset = noffset; nlen = 0 },
          ))

    complete-Ends :
        (fuel a : ℕ)
        → Ends fuel (
            some (
              state ((with_names file) h.names).load_state,
              record { info = some ((with_names file) h.names); noffset = a; nlen = 0 },
            ))
    unfolding go_through
    complete-Ends zero a = (a, refl)
    complete-Ends (suc fuel) a = (a, refl)

    -- A call that asks for a part of the file is followed by a call with this part.
    asked-Ends :
        (fuel a b : ℕ) (info : ElfInfo)
        → is_complete info.load_state.hdrs ≡ false
        → Ends fuel (
            elf_load_header alloc
              (λ i. file (a + i))
              a
              b
              info.load_state
              (record { info = some info; noffset = a; nlen = b }))
        → Ends
            (suc fuel)
            (some (state info.load_state, record { info = some info; noffset = a; nlen = b }))
    unfolding go_through
    asked-Ends fuel a b info more (at, eq) = (at, rw more eq)

    -- From each state on, on any part of the file: the step that the state waits for is taken, in this call
    -- or in the next one.
    names-Ends :
        (fuel offset len a b : ℕ) (last : LoadState)
        → offset + len < 2 ^ 64
        → Ends (suc fuel) (
            shstrtab_step alloc
              (λ i. file (offset + i))
              offset
              len
              last
              (with_shdrs file)
              (asking (with_shdrs file) a b))
    names-Ends fuel offset len a b last given =
        let o = h.names.sh_offset in
        let n = h.names.sh_size in
        elim (Bool-cases (outside offset len o n)) [
          | inl out ↦ rw (names_outside alloc file h room offset len a b given last out) (
              asked-Ends fuel o n (with_shdrs file) refl (
                rw
                  (
                    names_call alloc file h room o n o n h.names_fit,
                    names_inside alloc file h room o n o n h.names_fit (with_shdrs file).load_state
                        (not_outside alloc file h room o n),
                  )
                  (complete-Ends fuel o)))
          | inr inside ↦
              rw (names_inside alloc file h room offset len a b given last inside)
                (complete-Ends (suc fuel) a)
        ]

    shdrs-Ends :
        (fuel offset len a b : ℕ) (last : LoadState)
        → offset + len < 2 ^ 64
        → Ends (suc (suc fuel)) (
            then_step
              (shdrs_step alloc
                (λ i. file (offset + i))
                offset
                len
                (with_phdrs file)
                (asking (with_phdrs file) a b))
              (shstrtab_step alloc (λ i. file (offset + i)) offset len last))
    shdrs-Ends fuel offset len a b last given =
        let o = elf_shoff file in
        let n = elf_shnum file * elf_shentsize file in
        elim (Bool-cases (outside offset len o n)) [
          | inl out ↦ rw (shdrs_outside alloc file h room offset len a b given out) (
              asked-Ends (suc fuel) o n (with_phdrs file) refl (
                rw
                  (
                    shdrs_call alloc file h room o n o n h.shdrs_fit,
                    shdrs_inside alloc file h room o n o n h.shdrs_fit
                        (not_outside alloc file h room o n),
                  )
                  (names-Ends fuel o n o n (with_phdrs file).load_state h.shdrs_fit)))
          | inr inside ↦
              rw (shdrs_inside alloc file h room offset len a b given inside)
                (names-Ends (suc fuel) offset len a b last given)
        ]

    phdrs-Ends :
        (fuel offset len a b : ℕ) (last : LoadState)
        → offset + len < 2 ^ 64
        → Ends (suc (suc (suc fuel))) (
            then_step
              (phdrs_step alloc
                (λ i. file (offset + i))
                offset
                len
                (with_ehdr file)
                (asking (with_ehdr file) a b))
              (λ info l.
                then_step
                  (shdrs_step alloc (λ i. file (offset + i)) offset len info l)
                  (shstrtab_step alloc (λ i. file (offset + i)) offset len last)))
    phdrs-Ends fuel offset len a b last given =
        let o = elf_phoff file in
        let n = elf_phnum file * elf_phentsize file in
        elim (Bool-cases (outside offset len o n)) [
          | inl out ↦ rw (phdrs_outside alloc file h room offset len a b given out) (
              asked-Ends (suc (suc fuel)) o n (with_ehdr file) refl (
                rw
                  (
                    phdrs_call alloc file h room o n o n h.phdrs_fit,
                    phdrs_inside alloc file h room o n o n h.phdrs_fit
                        (not_outside alloc file h room o n),
                  )
                  (shdrs-Ends fuel o n o n (with_ehdr file).load_state h.phdrs_fit)))
          | inr inside ↦
              rw (phdrs_inside alloc file h room offset len a b given inside)
                (shdrs-Ends (suc fuel) offset len a b last given)
        ]

    shifted : (λ i. file (0 + i)) ≡ file
    shifted = fun_ext (λ i. ap file (omega arith))

    first-Ends :
        (fuel len a b : ℕ)
        → sizeof_ehdr (elf_is_64 file) ≤ len
        → len < 2 ^ 64
        → Ends (suc (suc (suc fuel))) (first_call alloc file len a b)
    unfolding elf_load_header ehdr_step
    first-Ends fuel len a b le given =
        let class : ltb 4 len ≡ true = ground arith in
        let whole : ltb len (sizeof_ehdr (elf_is_64 file)) ≡ false = ground arith in
        rw (class, whole, room (elf_info_size (elf_is_64 file)))
          (subst
            (λ (img : ℕ → ℕ). Ends (suc (suc (suc fuel))) (
              then_step (phdrs_step alloc img 0 len (with_ehdr file) (asking (with_ehdr file) a b))
                (λ info l.
                  then_step (shdrs_step alloc img 0 len info l)
                    (shstrtab_step alloc img 0 len state_wait_for_phdrs))))
            shifted (phdrs-Ends fuel 0 len a b state_wait_for_phdrs (omega arith)))

    first_short :
        (len a b : ℕ)
        → 5 ≤ len
        → ltb len (sizeof_ehdr (elf_is_64 file)) ≡ true
        → first_call alloc file len a b
          ≡ some (
            state state_init,
            record { info = none; noffset = 0; nlen = sizeof_ehdr (elf_is_64 file) },
          )
    unfolding elf_load_header ehdr_step
    first_short len a b le short =
        let class : ltb 4 len ≡ true = ground arith in rw (class, short) refl

    -- For a file whose header tables do not wrap around in 64 bits, with a section that has the names, and
    -- with memory to be had: a caller that gives `elf_load_header` first any 5 bytes or more from the
    -- start of the file, and then each time the part that was asked for, gets all headers in at most five
    -- calls: no call fails and none looks outside what it is given or outside a table, and the loader
    -- ends in RPROC_LOADER_READY_TO_LOAD with ELF_STATE_HDRS_COMPLETE, with the program headers, the
    -- section headers and the names as the file has them.
    pub load_header_completes :
        (fuel len a b : ℕ)
        → 5 ≤ len
        → len < 2 ^ 64
        → Ends (suc (suc (suc (suc fuel)))) (first_call alloc file len a b)
    unfolding go_through
    load_header_completes fuel len a b le given =
        let n = sizeof_ehdr (elf_is_64 file) in
        elim (Bool-cases (ltb len n)) [
          | inl short ↦ rw (first_short len a b le short) (
              subst (λ (img : ℕ → ℕ). Ends (suc (suc (suc fuel))) (first_call alloc img n 0 n))
                (sym shifted) (first-Ends fuel n 0 n (omega arith) (ground arith)))
          | inr enough ↦ first-Ends (suc fuel) len a b (ground arith) given
        ]
