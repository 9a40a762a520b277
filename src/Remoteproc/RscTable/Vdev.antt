-- ===== src/Remoteproc/RscTable/Vdev.antt =====
-- lib/remoteproc/rsc_table_parser.c: where `handle_vdev_rsc` stores the notification ids.
use openamp.Base.{
  ℕ, ◌+◌, ◌*◌, ◌/◌, ◌%◌, ◌^◌, ◌≤◌, ◌<◌, ◌≡◌, ◌≢◌, true, false, some, arith, ◌⊎◌, ◌==◌,
  if◌then◌else◌,
}
use openamp.Base.Int.{pos}
use openamp.Rpmsg.{MetalBitmap, IsBitmap, u32_of}
use openamp.Remoteproc.Ids.{allocate_id_exact}
use openamp.Remoteproc.RscTable.{read32, put32, RscState, assign_id, assign_vrings, handle_vdev_rsc}

-- What was written reads back, and other fields keep their values.
pub read32-put32 :
    (size : ℕ) (table : ℕ → ℕ) (off value : ℕ)
    → off + 4 ≤ size
    → value < 2 ^ 32
    → read32 size (put32 table off value) off ≡ some value
read32-put32 size table off value h w =
    let whole : u32_of (value % 256) (value / 256 % 256) (value / 2 ^ 16 % 256)
          (value / 2 ^ 24 % 256)
        ≡ value =
      omega arith in
    ground (arith, whole)

pub put32_other :
    (table : ℕ → ℕ) (off value j : ℕ)
    → (j < off) ⊎ (off + 4 ≤ j)
    → put32 table off value j ≡ table j
put32_other table off value j away = ground arith

pub read32-put32_other :
    (size : ℕ) (table : ℕ → ℕ) (off value r : ℕ)
    → (r + 4 ≤ off) ⊎ (off + 4 ≤ r)
    → read32 size (put32 table off value) r ≡ read32 size table r
read32-put32_other size table off value r away = ground (
  arith,
  put32_other table off value r,
  put32_other table off value (r + 1),
  put32_other table off value (r + 2),
  put32_other table off value (r + 3),
)

module _ {B P : Type 0} (m : MetalBitmap B) (law : IsBitmap m) (size : ℕ) where
  -- An id that is free goes to the field of the device entry.
  assign_id-free :
      (s : RscState B P) (rsc id : ℕ)
      → id < 64
      → m.is_bit_set s.rproc.bitmap id ≡ false
      → rsc + 12 ≤ size
      → (b : B) × (assign_id m size s rsc id
          ≡ some (record s {
            rproc = record s.rproc { bitmap = b };
            table = put32 s.table (rsc + 8) id;
          }))
        × ((j : ℕ) → m.is_bit_set b j ≡ (if j == id then true else m.is_bit_set s.rproc.bitmap j))
  unfolding assign_id
  assign_id-free s rsc id lt free inside = (
    m.set_bit s.rproc.bitmap id,
    ground (arith, allocate_id_exact m law s.rproc.bitmap id lt free),
    law.is_set-set s.rproc.bitmap id,
  )

  -- For a device entry with one vring, whose two notification ids differ, are below 64 and are free, the id
  -- of the device is marked as taken and so is the vring's, but the entry's field for the device's id ends
  -- up with the id of the vring.
  pub handle_vdev-overwrites :
      (s : RscState B P) (rsc id vring_id : ℕ)
      → id < 64
      → vring_id < 64
      → id ≢ vring_id
      → m.is_bit_set s.rproc.bitmap id ≡ false
      → m.is_bit_set s.rproc.bitmap vring_id ≡ false
      → rsc + 48 ≤ size
      → read32 size s.table (rsc + 8) ≡ some id
      → s.table (rsc + 25) ≡ 1
      → read32 size s.table (rsc + 28 + 20 * 0 + 12) ≡ some vring_id
      → (s' : RscState B P) × (handle_vdev_rsc m size s rsc ≡ some (pos 0, s'))
        × (read32 size s'.table (rsc + 8) ≡ some vring_id)
        × (m.is_bit_set s'.rproc.bitmap id ≡ true)
        × (m.is_bit_set s'.rproc.bitmap vring_id ≡ true)
  unfolding handle_vdev_rsc assign_vrings
  handle_vdev-overwrites s rsc id vid lt ltv ne free freev inside ei en ev =
      let (b, eq, bit) = assign_id-free s rsc id lt free (omega arith) in
      let t1 = put32 s.table (rsc + 8) id in
      let s1 : RscState B P = record s { rproc = record s.rproc { bitmap = b }; table = t1 } in
      let (b', eq', bit') = assign_id-free s1 rsc vid ltv (ground (arith, bit vid)) (omega arith) in
      (
        record s { rproc = record s.rproc { bitmap = b' }; table = put32 t1 (rsc + 8) vid },
        ground (
          arith,
          ei,
          eq,
          eq',
          en,
          ev,
          put32_other s.table (rsc + 8) id (rsc + 25),
          read32-put32_other size s.table (rsc + 8) id (rsc + 28 + 20 * 0 + 12),
        ),
        read32-put32 size t1 (rsc + 8) vid (omega arith) (omega arith),
        ground (arith, bit id, bit' id),
        ground (arith, bit' vid),
      )
