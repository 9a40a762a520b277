-- ===== src/Remoteproc/Virtio/Config.antt =====
-- lib/remoteproc/remoteproc_virtio.c: the configuration space, the features and the status in the device
-- entry.
use openamp.Base.{
  ℕ, zero, suc, ◌+◌, ◌%◌, ◌^◌, ◌≤◌, ◌<◌, ◌≡◌, ◌⊎◌, inl, inr, refl, ap₂, ◌∙◌, Bool-cases, Bool, not,
  true, false, none, some, List, [], ◌∷◌, arith, length, bit_and, ◌==◌,
}
use openamp.Base.Array.{update}
use openamp.Base.Bits.{bit_and-le, bit_and_idem}
use openamp.Virtqueue.{master, slave}
use openamp.Remoteproc.RscTable.{read32, put32}
use openamp.Remoteproc.RscTable.Vdev.{read32-put32, put32_other, read32-put32_other}
use openamp.Remoteproc.Virtio.{
  Vdev, Shared, config_start, driver_ok, read_bytes, write_bytes, rproc_virtio_get_dfeatures,
  rproc_virtio_get_features, rproc_virtio_get_status, rproc_virtio_negotiate_features,
  rproc_virtio_read_config, rproc_virtio_write_config, rproc_virtio_wait_remote_ready, notified,
}

pub write_bytes_other :
    (table : ℕ → ℕ) (off : ℕ) (bs : List ℕ) (j : ℕ)
    → (j < off) ⊎ (off + length bs ≤ j)
    → write_bytes table off bs j ≡ table j
write_bytes_other table off [] j away = refl
write_bytes_other table off (b ∷ bs) j away =
    ground (arith, write_bytes_other (update table off b) (off + 1) bs j)

pub read_bytes-write :
    (table : ℕ → ℕ) (off : ℕ) (bs : List ℕ)
    → read_bytes (write_bytes table off bs) off (length bs) ≡ bs
read_bytes-write table off [] = refl
read_bytes-write table off (b ∷ bs) =
    ap₂ (λ x xs. x ∷ xs)
      (write_bytes_other (update table off b) (off + 1) bs off (inl (omega arith)) ∙ ground arith)
      (read_bytes-write (update table off b) (off + 1) bs)

-- A field in front of the bytes that are written.
read32-write_bytes :
    (size : ℕ) (table : ℕ → ℕ) (off : ℕ) (bs : List ℕ) (r : ℕ)
    → r + 4 ≤ off
    → read32 size (write_bytes table off bs) r ≡ read32 size table r
read32-write_bytes size table off bs r before = ground (
  arith,
  write_bytes_other table off bs r,
  write_bytes_other table off bs (r + 1),
  write_bytes_other table off bs (r + 2),
  write_bytes_other table off bs (r + 3),
)

module _ {P : Type 0} (size : ℕ) (notify : P → (id : ℕ) → P) (vdev : Vdev) (s : Shared P) where
  -- For a configuration space of `config_len` bytes inside the region, and bytes that fit into it from the
  -- offset on: `rproc_virtio_write_config` writes them and notifies the device once,
  -- `rproc_virtio_read_config` then returns them, and no other byte of the region has changed.
  pub config-roundtrip :
      (config_len offset : ℕ) (src : List ℕ)
      → read32 size s.table (vdev.vdev_rsc + 20) ≡ some config_len
      → offset + length src ≤ config_len
      → config_len < 2 ^ 32
      → config_start vdev + config_len ≤ size
      → (s' : Shared P) × (rproc_virtio_write_config size notify vdev s offset src ≡ some s')
        × (rproc_virtio_read_config size vdev s'.table offset (length src) ≡ some (some src))
        × (s'.platform ≡ notify s.platform vdev.notifyid)
        × ((j : ℕ)
            → (j < config_start vdev + offset) ⊎ (config_start vdev + offset + length src ≤ j)
            → s'.table j ≡ s.table j)
  unfolding rproc_virtio_write_config rproc_virtio_read_config
  config-roundtrip config_len offset src el fits byte inside =
      let off = config_start vdev + offset in
      let same = read32-write_bytes size s.table off src (vdev.vdev_rsc + 20) (omega arith) in
      let whole : (offset + length src) % 2 ^ 32 ≡ offset + length src = omega arith in
      (
        notified size notify vdev s (write_bytes s.table off src),
        ground (arith, el, whole),
        ground (arith, el, whole, same, read_bytes-write s.table off src),
        refl,
        write_bytes_other s.table off src,
      )

  -- An access that goes past the end of the configuration space, for an offset and a length whose sum fits
  -- into 32 bits: `rproc_virtio_write_config` changes nothing and does not notify, and
  -- `rproc_virtio_read_config` does not write its destination.
  pub config_refused :
      (config_len offset : ℕ) (src : List ℕ)
      → read32 size s.table (vdev.vdev_rsc + 20) ≡ some config_len
      → config_len < offset + length src
      → offset + length src < 2 ^ 32
      → (rproc_virtio_write_config size notify vdev s offset src ≡ some s)
        × (rproc_virtio_read_config size vdev s.table offset (length src) ≡ some none)
  unfolding rproc_virtio_write_config rproc_virtio_read_config
  config_refused config_len offset src el past small =
      let whole : (offset + length src) % 2 ^ 32 ≡ offset + length src = omega arith in
      (ground (arith, el, whole), ground (arith, el, whole))

  -- For a device entry inside the region with device features `dfeatures`, `rproc_virtio_negotiate_features`
  -- returns 0 and notifies the device once, and afterwards `rproc_virtio_get_features` returns the features that
  -- both the device and the request have. The device features, the status and every byte outside the field of
  -- the guest features stay as they were.
  pub negotiate_features-get :
      (features dfeatures : ℕ)
      → rproc_virtio_get_dfeatures size vdev s.table ≡ some dfeatures
      → dfeatures < 2 ^ 32
      → vdev.vdev_rsc + 28 ≤ size
      → (s' : Shared P) × (rproc_virtio_negotiate_features size notify vdev s features
          ≡ some (0, s'))
        × (rproc_virtio_get_features size vdev s'.table ≡ some (bit_and dfeatures features))
        × (rproc_virtio_get_dfeatures size vdev s'.table ≡ some dfeatures)
        × (rproc_virtio_get_status size vdev s'.table ≡ rproc_virtio_get_status size vdev s.table)
        × (s'.platform ≡ notify s.platform vdev.notifyid)
        × ((j : ℕ) → (j < vdev.vdev_rsc + 16) ⊎ (vdev.vdev_rsc + 20 ≤ j) → s'.table j ≡ s.table j)
  unfolding rproc_virtio_negotiate_features rproc_virtio_get_features rproc_virtio_get_status
  negotiate_features-get features dfeatures ed word inside =
      let both = bit_and dfeatures features in
      let table = put32 s.table (vdev.vdev_rsc + 16) both in
      let ed' : read32 size table (vdev.vdev_rsc + 12) ≡ some dfeatures =
        read32-put32_other size s.table (vdev.vdev_rsc + 16) both (vdev.vdev_rsc + 12)
          (inl (omega arith))
        ∙ ed in
      (
        notified size notify vdev s table,
        ground (arith, ed),
        ground (
          arith,
          ed',
          read32-put32 size s.table (vdev.vdev_rsc + 16) both (omega arith)
              (omega (arith, bit_and-le dfeatures features)),
          bit_and_idem dfeatures features,
        ),
        ed',
        ground (arith, put32_other s.table (vdev.vdev_rsc + 16) both (vdev.vdev_rsc + 24)),
        refl,
        λ j away. put32_other s.table (vdev.vdev_rsc + 16) both j (ground (arith, away)),
      )

-- The memory after the other core has run so often.
abbrev pub after : (yield : (ℕ → ℕ) → ℕ → ℕ) → (k : ℕ) → (ℕ → ℕ) → ℕ → ℕ
after yield zero table = table
after yield (suc k) table = after yield k (yield table)

abbrev pub is_driver_ok : (rsc : ℕ) → (ℕ → ℕ) → Bool
is_driver_ok rsc table = not (bit_and (table (rsc + 24)) driver_ok == 0)

below_suc {ℓ} :
    (P : ℕ → Type ℓ) (j : ℕ) → P 0 → ((i : ℕ) → i < j → P (suc i)) → (i : ℕ) → i < suc j → P i
below_suc P j base step zero h = base
below_suc P j base step (suc i) h = step i (omega arith)

-- A slave whose device entry is inside the region, and whose master has set VIRTIO_CONFIG_STATUS_DRIVER_OK by the
-- time the other core has run `k` times, leaves `rproc_virtio_wait_remote_ready` after at most `k` turns, and
-- at the first look at which the bit is set.
pub wait_ready :
    (size : ℕ) (vdev : Vdev) (yield : (ℕ → ℕ) → ℕ → ℕ) (k : ℕ) (table : ℕ → ℕ)
    → vdev.role ≡ slave
    → vdev.vdev_rsc + 28 ≤ size
    → is_driver_ok vdev.vdev_rsc (after yield k table) ≡ true
    → (j : ℕ) × (j ≤ k)
      × (rproc_virtio_wait_remote_ready size vdev yield (suc k) table ≡ some (after yield j table))
      × (is_driver_ok vdev.vdev_rsc (after yield j table) ≡ true)
      × ((i : ℕ) → i < j → is_driver_ok vdev.vdev_rsc (after yield i table) ≡ false)
unfolding rproc_virtio_wait_remote_ready rproc_virtio_get_status
wait_ready size vdev yield zero table role inside ok =
    (0, omega arith, ground (arith, role, ok), ok, λ i h. absurd (omega arith))
wait_ready size vdev yield (suc k) table role inside ok =
    elim (Bool-cases (is_driver_ok vdev.vdev_rsc table)) [
      | inl now ↦ (0, omega arith, ground (arith, role, now), now, λ i h. absurd (omega arith))
      | inr later ↦
          let (j, le, eq, done, before) =
            wait_ready size vdev yield k (yield table) role inside ok in
          (
            suc j,
            omega arith,
            ground (arith, role, later, eq),
            done,
            below_suc (λ i. is_driver_ok vdev.vdev_rsc (after yield i table) ≡ false) j later
                before,
          )
    ]

-- A master does not wait.
pub wait_master :
    (size : ℕ) (vdev : Vdev) (yield : (ℕ → ℕ) → ℕ → ℕ) (k : ℕ) (table : ℕ → ℕ)
    → vdev.role ≡ master
    → rproc_virtio_wait_remote_ready size vdev yield (suc k) table ≡ some table
unfolding rproc_virtio_wait_remote_ready
wait_master size vdev yield k table role = ground (arith, role)
