-- ===== src/Remoteproc/Elf/Segments.antt =====
-- lib/remoteproc/elf_loader.c: `elf_next_load_segment` finds the next segment to load.
use openamp.Base.{
  ℕ, zero, suc, ◌+◌, ◌-◌, ◌*◌, ◌≤◌, ◌<◌, ◌≡◌, ◌≢◌, refl, ◌∙◌, ap, Bool, true, false, Option, none,
  some, arith, ◌⊎◌, inl, inr, leb, ◌==◌, ◌>>=◌, Bool-cases,
}
use openamp.Remoteproc.Elf.{
  Block, ElfInfo, Segment, elf_is_64, elf_phnum, elf_parse_segment, elf_get_segment_from_index,
  sizeof_phdr,
}

-- What a call leaves: the count of headers that it has gone past, and the fields of the last header that it
-- parsed, of which the caller has what is behind its pointers.
pub record Found : Type 0 where
  pub load : Bool
  pub nseg : ℕ
  pub last : Option Segment

-- The loop; `none` is also an access outside the table, or that the fuel is used up.
unfoldable pub elf_next_load_segment :
    (fuel : ℕ) → ElfInfo → (nseg : ℕ) → (last : Option Segment) → Option Found
elf_next_load_segment zero info nseg last = none
elf_next_load_segment (suc fuel) info nseg last = elim (elf_get_segment_from_index info nseg) [
  | none ↦ some (record { load = false; nseg = nseg; last = last })
  | some (b, off) ↦ do
    seg ← elf_parse_segment (elf_is_64 info.ehdr) b off
    elim (seg.p_type == 1) [
      | true ↦ some (record { load = true; nseg = nseg + 1; last = some seg })
      | false ↦ elf_next_load_segment fuel info (nseg + 1) (some seg)
    ]
]

-- The headers of the table, and whether the one at an index is to be loaded.
pub record HasPhdrs (info : ElfInfo) (segs : ℕ → Segment) : Type 0 where
  pub table : Block
  pub phdrs : info.phdrs ≡ some table
  pub parsed :
      (i : ℕ)
      → i < elf_phnum info.ehdr
      → elf_parse_segment (elf_is_64 info.ehdr) table (i * sizeof_phdr (elf_is_64 info.ehdr))
        ≡ some (segs i)

from_next :
    (type : ℕ → ℕ) (n i : ℕ) → n ≤ i → (type n == 1) ≡ false → (n + 1 ≤ i → type i ≢ 1) → type i ≢ 1
from_next type n i le t next = elim (Bool-cases (i == n)) [
  | inl e ↦ ground arith
  | inr e ↦ ground (arith, next)
]

seen_last :
    (segs : ℕ → Segment) (nseg phnum : ℕ) (seen : Option Segment)
    → nseg < phnum
    → (nseg + 1 ≡ phnum → seen ≡ some (segs nseg))
    → (nseg + 1 < phnum → seen ≡ some (segs (phnum - 1)))
    → seen ≡ some (segs (phnum - 1))
seen_last segs nseg phnum seen lt at_end within = elim (Bool-cases (nseg + 1 == phnum)) [
  | inl e ↦
      let last : nseg ≡ phnum - 1 = ground arith in
      at_end (ground arith) ∙ ap (λ i. some (segs i)) last
  | inr e ↦ within (ground arith)
]

-- Where all program headers can be read, with one more unit of fuel than there are headers left, the loop
-- ends: it finds the first header from `nseg` on whose type is PT_LOAD, with its fields, and goes past
-- it; or, where there is none, it reports none and stands at the number of headers,
-- with the fields of the last header that it parsed.
pub next_load_segment-first :
    (info : ElfInfo) (segs : ℕ → Segment) (h : HasPhdrs info segs)
    → (fuel nseg : ℕ) (last : Option Segment) → nseg ≤ elf_phnum info.ehdr
    → elf_phnum info.ehdr < nseg + fuel
    → ((k : ℕ) × (nseg ≤ k)
        × (k < elf_phnum info.ehdr)
        × ((segs k).p_type ≡ 1)
        × ((i : ℕ) → nseg ≤ i → i < k → (segs i).p_type ≢ 1)
        × (elf_next_load_segment fuel info nseg last
            ≡ some (record { load = true; nseg = k + 1; last = some (segs k) })))
      ⊎ (((i : ℕ) → nseg ≤ i → i < elf_phnum info.ehdr → (segs i).p_type ≢ 1)
          × ((seen : Option Segment) × (elf_next_load_segment fuel info nseg last
                ≡ some (record { load = false; nseg = elf_phnum info.ehdr; last = seen }))
              × (nseg ≡ elf_phnum info.ehdr → seen ≡ last)
              × (nseg < elf_phnum info.ehdr → seen ≡ some (segs (elf_phnum info.ehdr - 1)))))
unfolding elf_next_load_segment
next_load_segment-first info segs h zero nseg last le lt = absurd (omega arith)
next_load_segment-first info segs h (suc fuel) nseg last le lt =
    elim (Bool-cases (leb (elf_phnum info.ehdr) nseg)) [
      | inl e ↦ inr (
        (λ i lo hi. absurd (ground arith)),
        (last, ground (arith, e, h.phdrs), (λ at. refl), (λ lt. absurd (ground arith))),
      )
      | inr e ↦
          let here = h.parsed nseg (ground arith) in
          elim (Bool-cases ((segs nseg).p_type == 1)) [
            | inl t ↦ inl (
              nseg,
              omega arith,
              ground arith,
              ground arith,
              (λ i lo hi. absurd (omega arith)),
              ground (arith, e, h.phdrs, here, t),
            )
            | inr t ↦
                elim (next_load_segment-first info segs h fuel (nseg + 1) (some (segs nseg))
                  (ground arith) (omega arith)) [
                    | inl (k, lo, hi, load, before, eq) ↦ inl (
                      k,
                      omega arith,
                      hi,
                      load,
                      (λ i l u. from_next (λ j. (segs j).p_type) nseg i l t (λ n. before i n u)),
                      ground (arith, e, h.phdrs, here, t, eq),
                    )
                    | inr (no_load, (seen, eq, at_end, within)) ↦ inr (
                      (λ i l u. from_next (λ j. (segs j).p_type) nseg i l t (λ n. no_load i n u)),
                      (
                        seen,
                        ground (arith, e, h.phdrs, here, t, eq),
                        (λ at. absurd (ground arith)),
                        (λ lt. seen_last segs nseg (elf_phnum info.ehdr) seen lt at_end within),
                      ),
                    )
                  ]
          ]
    ]
