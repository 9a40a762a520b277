-- ===== src/Remoteproc/Ids.antt =====
-- lib/remoteproc/remoteproc.c: `remoteproc_allocate_id`.
use openamp.Base.{
  ℕ, ◌+◌, ◌-◌, ◌%◌, ◌^◌, ◌≤◌, ◌<◌, ◌≡◌, ◌⊎◌, inl, inr, refl, true, false, not, ◌&&◌, Option, none,
  some, arith, ltb, leb, ◌==◌, if◌then◌else◌, Bool-cases,
}
use openamp.Rpmsg.{MetalBitmap, IsBitmap}
use openamp.Remoteproc.{notify_id_any}

-- METAL_BITS_PER_ULONG, the bits of `rproc->bitmap`
abbrev pub bits_per_ulong : ℕ
bits_per_ulong = 64

-- The range that is searched.
abbrev pub range_start : ℕ → ℕ
range_start start = if start == notify_id_any then 0 else start

abbrev pub range_end : ℕ → ℕ
range_end last = if last == 0 then bits_per_ulong else last

module _ {B : Type 0} (m : MetalBitmap B) where
  -- The id and the bitmap with it marked. The search looks at the bits from the start to the one that it
  -- finds; a bit that is not among the 64 of the bitmap is an access outside it.
  unfoldable pub remoteproc_allocate_id : B → (start last : ℕ) → Option (ℕ × B)
  remoteproc_allocate_id bitmap start last =
      let s = range_start start in
      let e = range_end last in
      let notifyid = m.next_clear_bit bitmap s e in
      let looked = if ltb notifyid e then notifyid else e - 1 in
      if ltb s e && leb bits_per_ulong looked
      then none
      else some (
          if not (notifyid == e)
          then (notifyid, m.set_bit bitmap notifyid)
          else (notify_id_any, bitmap))

  -- For a range that is not empty and lies inside the bitmap, `remoteproc_allocate_id` returns an id of the
  -- range whose bit was clear, and sets that bit and no other, or returns RSC_NOTIFY_ID_ANY, where all bits
  -- of the range are set, and changes nothing.
  pub allocate_id_fresh :
      (law : IsBitmap m) (bitmap : B) (start last : ℕ)
      → range_start start < range_end last
      → range_end last ≤ bits_per_ulong
      → (id : ℕ) × (bitmap' : B) × (remoteproc_allocate_id bitmap start last ≡ some (id, bitmap'))
        × (((range_start start ≤ id)
              × (id < range_end last)
              × (m.is_bit_set bitmap id ≡ false)
              × ((j : ℕ)
                  → m.is_bit_set bitmap' j ≡ (if j == id then true else m.is_bit_set bitmap j)))
            ⊎ ((id ≡ notify_id_any)
                × (bitmap' ≡ bitmap)
                × ((i : ℕ)
                    → range_start start ≤ i
                    → i < range_end last
                    → m.is_bit_set bitmap i ≡ true)))
  unfolding remoteproc_allocate_id
  allocate_id_fresh law bitmap start last lt le =
      let s = range_start start in
      let e = range_end last in
      let id = m.next_clear_bit bitmap s e in
      let bounds = law.next_bounds bitmap s e (omega arith) in
      elim (Bool-cases (ltb id e)) [
        | inl found ↦ (
          id,
          m.set_bit bitmap id,
          ground arith,
          inl (
            ground arith,
            ground arith,
            law.next_clear bitmap s e (ground arith),
            law.is_set-set bitmap id,
          ),
        )
        | inr full ↦ (
          notify_id_any,
          bitmap,
          ground arith,
          inr (refl, refl, λ i lo hi. law.all_set bitmap s e i lo (ground arith)),
        )
      ]

  -- The range of one id that is clear.
  pub allocate_id_exact :
      (law : IsBitmap m) (bitmap : B) (id : ℕ)
      → id < bits_per_ulong
      → m.is_bit_set bitmap id ≡ false
      → remoteproc_allocate_id bitmap id ((id + 1) % 2 ^ 32) ≡ some (id, m.set_bit bitmap id)
  unfolding remoteproc_allocate_id
  allocate_id_exact law bitmap id lt clear =
      let e : (id + 1) % 2 ^ 32 ≡ id + 1 = omega arith in
      let found : m.next_clear_bit bitmap id (id + 1) ≡ id =
        ground (arith, law.next_bounds bitmap id (id + 1), law.all_set bitmap id (id + 1) id) in
      ground (arith, e, found)
