-- ===== src/Remoteproc/Virtio.antt =====
-- lib/remoteproc/remoteproc_virtio.c: the virtio device that a resource table describes.
--
-- `vdev_rsc_io` is a region of `size` bytes, `table`, and `vdev_rsc` the offset of the device entry in it;
-- an access outside the region is `none`. `Vdev` is `struct remoteproc_virtio` with the `struct
-- virtio_device` inside it. `notify` is a step of the platform's state, and so is the callback of a
-- virtqueue, which is named by its pointer.
pub mod Config
pub mod Devices
pub mod Lifetime
pub mod Queues
mod Tests
use openamp.Base.{
  ℕ, zero, suc, ◌+◌, ◌*◌, ◌%◌, ◌^◌, Bool, true, false, ◌||◌, Option, none, some, List, [], ◌∷◌,
  bit_and, ltb, leb, ◌==◌, if◌then◌else◌, ◌>>=◌, length,
}
use openamp.Base.Array.{update, load, store}
use openamp.Base.Int.{ℤ, pos}
use openamp.Virtqueue.{Virtqueue, Role, master, slave}
use openamp.Virtqueue.Notify.{virtqueue_notification}
use openamp.Remoteproc.{einval, notify_id_any}
use openamp.Remoteproc.RscTable.{read32, write32}

-- `struct virtio_vring_info`, with `struct vring_alloc_info` in it
pub record VirtioVringInfo : Type 0 where
  pub vq : ℕ
  pub vaddr : ℕ
  pub align : ℕ
  pub num_descs : ℕ
  pub notifyid : ℕ
  pub io : ℕ

-- The fields that these functions use. `self` is the address of the `struct remoteproc_virtio` and `infos`
-- that of the array `vrings_info`.
pub record Vdev : Type 0 where
  pub self : ℕ
  pub infos : ℕ
  pub vdev_rsc : ℕ
  pub notifyid : ℕ
  pub role : Role
  pub vrings_num : ℕ
  pub vrings_info : ℕ → VirtioVringInfo

-- VIRTIO_CONFIG_STATUS_DRIVER_OK and VIRTIO_CONFIG_STATUS_NEEDS_RESET
abbrev pub driver_ok : ℕ
driver_ok = 4

abbrev pub needs_reset : ℕ
needs_reset = 64

-- `(char *)&vdev_rsc->vring[vrings_num]`
abbrev pub config_start : Vdev → ℕ
config_start vdev = vdev.vdev_rsc + 28 + 20 * vdev.vrings_num

-- The memory and the platform that a call works on.
pub record Shared (P : Type 0) : Type 0 where
  pub table : ℕ → ℕ
  pub platform : P

-- `metal_io_block_read` and `metal_io_block_write` inside a region
abbrev pub read_bytes : (ℕ → ℕ) → (off length : ℕ) → List ℕ
read_bytes table off zero = []
read_bytes table off (suc n) = table off ∷ read_bytes table (off + 1) n

abbrev pub write_bytes : (ℕ → ℕ) → (off : ℕ) → List ℕ → ℕ → ℕ
write_bytes table off [] = table
write_bytes table off (b ∷ bs) = write_bytes (update table off b) (off + 1) bs

module _ (size : ℕ) (vdev : Vdev) where
  pub rproc_virtio_get_status : (ℕ → ℕ) → Option ℕ
  rproc_virtio_get_status table = load size table (vdev.vdev_rsc + 24)

  pub rproc_virtio_get_dfeatures : (ℕ → ℕ) → Option ℕ
  rproc_virtio_get_dfeatures table = read32 size table (vdev.vdev_rsc + 12)

  pub rproc_virtio_get_features : (ℕ → ℕ) → Option ℕ
  unfolding rproc_virtio_get_dfeatures
  rproc_virtio_get_features table = do
    gfeatures ← read32 size table (vdev.vdev_rsc + 16)
    dfeatures ← rproc_virtio_get_dfeatures table
    some (bit_and dfeatures gfeatures)

  -- `none` inside is a destination that is not written. A length is not negative.
  pub rproc_virtio_read_config : (ℕ → ℕ) → (offset length : ℕ) → Option (Option (List ℕ))
  rproc_virtio_read_config table offset length = do
    config_len ← read32 size table (vdev.vdev_rsc + 20)
    (if leb ((offset + length) % 2 ^ 32) config_len
        then (let off = config_start vdev + offset in
            if leb (off + length) size then some (some (read_bytes table off length)) else none)
        else some none)

  -- `rproc_virtio_wait_remote_ready`: the status is read in a loop, and `yield` is what the other core does
  -- to the memory between two reads. The result is the memory at the end.
  pub rproc_virtio_wait_remote_ready :
      (yield : (ℕ → ℕ) → ℕ → ℕ) → (fuel : ℕ) → (ℕ → ℕ) → Option (ℕ → ℕ)
  unfolding rproc_virtio_get_status
  rproc_virtio_wait_remote_ready yield zero table = none
  rproc_virtio_wait_remote_ready yield (suc fuel) table =
      let rest = rproc_virtio_wait_remote_ready yield fuel (yield table) in
      elim vdev.role [
        | master ↦ some table
        | slave ↦ do
          status ← rproc_virtio_get_status table
          (if bit_and status driver_ok == 0 then rest else some table)
      ]

module _ {P : Type 0} (size : ℕ) (notify : P → (id : ℕ) → P) (vdev : Vdev) where
  -- The notification that ends an operation, after its write.
  abbrev pub notified : Shared P → (ℕ → ℕ) → Shared P
  notified s table = record { table = table; platform = notify s.platform vdev.notifyid }

  pub rproc_virtio_set_status : Shared P → (status : ℕ) → Option (Shared P)
  rproc_virtio_set_status s status = do
    table ← store size s.table (vdev.vdev_rsc + 24) status
    some (notified s table)

  pub rproc_virtio_set_features : Shared P → (features : ℕ) → Option (Shared P)
  rproc_virtio_set_features s features = do
    table ← write32 size s.table (vdev.vdev_rsc + 16) features
    some (notified s table)

  -- The result is always 0.
  pub rproc_virtio_negotiate_features : Shared P → (features : ℕ) → Option (ℕ × Shared P)
  unfolding rproc_virtio_get_dfeatures rproc_virtio_set_features
  rproc_virtio_negotiate_features s features = do
    dfeatures ← rproc_virtio_get_dfeatures size vdev s.table
    s ← rproc_virtio_set_features s (bit_and dfeatures features)
    some (0, s)

  pub rproc_virtio_write_config : Shared P → (offset : ℕ) → (src : List ℕ) → Option (Shared P)
  rproc_virtio_write_config s offset src = do
    config_len ← read32 size s.table (vdev.vdev_rsc + 20)
    (if leb ((offset + length src) % 2 ^ 32) config_len
        then (let off = config_start vdev + offset in
            if leb (off + length src) size
            then some (notified s (write_bytes s.table off src))
            else none)
        else some s)

  pub rproc_virtio_reset_device : Shared P → Option (Shared P)
  unfolding rproc_virtio_set_status
  rproc_virtio_reset_device s = elim vdev.role [
    | master ↦ rproc_virtio_set_status s needs_reset
    | slave ↦ some s
  ]

module _ {P : Type 0} (notify : P → (id : ℕ) → P) (vdev : Vdev) where
  -- `rproc_virtio_virtqueue_notify`, for the virtqueue of this index
  pub rproc_virtio_virtqueue_notify : P → (vq_id : ℕ) → Option P
  rproc_virtio_virtqueue_notify p vq_id =
      if ltb vq_id vdev.vrings_num then some (notify p (vdev.vrings_info vq_id).notifyid) else none

pub rproc_virtio_init_vring : Vdev → (index notifyid va io num_descs align : ℕ) → ℤ × Vdev
rproc_virtio_init_vring vdev index notifyid va io num_descs align =
    if leb vdev.vrings_num index then (einval, vdev) else (
      pos 0,
      record vdev {
        vrings_info = update vdev.vrings_info index (record {
          vq = (vdev.vrings_info index).vq;
          vaddr = va;
          align = align;
          num_descs = num_descs;
          notifyid = notifyid;
          io = io;
        });
      },
    )

module _ {P : Type 0} (queue : P → (vq : ℕ) → Virtqueue) (callback : P → (vq : ℕ) → P) where
  -- `virtqueue_notification` on the virtqueue behind a pointer
  pub notification : P → (vq : ℕ) → P
  notification p vq = if virtqueue_notification (queue p vq) then callback p vq else p

  -- The loop of `rproc_virtio_notified` at entry `i` with `left` to go.
  pub notify_from : (ℕ → VirtioVringInfo) → (id left i : ℕ) → P → P
  unfolding notification
  notify_from infos id zero i p = p
  notify_from infos id (suc left) i p =
      notify_from infos id left (i + 1) (
        if (infos i).notifyid == id || (id == notify_id_any)
        then notification p (infos i).vq
        else p)

  pub rproc_virtio_notified : Option Vdev → (id : ℕ) → P → ℤ × P
  unfolding notify_from
  rproc_virtio_notified none id p = (einval, p)
  rproc_virtio_notified (some vdev) id p =
      if vdev.notifyid == id
      then (pos 0, p)
      else (pos 0, notify_from vdev.vrings_info id vdev.vrings_num 0 p)
