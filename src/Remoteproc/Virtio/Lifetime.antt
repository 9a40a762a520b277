-- ===== src/Remoteproc/Virtio/Lifetime.antt =====
-- lib/remoteproc/remoteproc_virtio.c: `rproc_virtio_create_vdev` and `rproc_virtio_remove_vdev`.
--
-- A `Heap` says which addresses stand for a block that is allocated. `metal_allocate_memory` is a parameter: it
-- chooses the address, `none` for NULL. To free what is not allocated is `none`. `garbage` is what the memory of
-- `vrings_info` holds before it is written, of which `memset` clears the first entry only.
pub mod Allocate
pub mod Balance
pub mod Owns
pub mod Same
use openamp.Base.{
  ℕ, zero, suc, ◌+◌, ◌*◌, ◌^◌, Bool, true, false, Option, none, some, ◌==◌, if◌then◌else◌, ◌>>=◌,
}
use openamp.Base.Array.{update, load}
use openamp.Virtqueue.{Role, master, slave}
use openamp.Remoteproc.RscTable.{read32}
use openamp.Remoteproc.Virtio.{
  VirtioVringInfo, Vdev, Shared, rproc_virtio_get_dfeatures, rproc_virtio_negotiate_features,
}

abbrev pub Heap : Type 0
Heap = ℕ → Bool

-- What a block is allocated for: a `struct remoteproc_virtio`, an array of that many `struct
-- virtio_vring_info`, and a `struct virtqueue` with that many extra descriptors.
pub data Block : Type 0 where
  for_device : Block
  for_infos for_virtqueue : ℕ → Block

abbrev pub Alloc : Type 0
Alloc = Heap → Block → Option ℕ

abbrev pub free : Heap → (p : ℕ) → Option Heap
free heap p = if heap p then some (update heap p false) else none

abbrev pub cleared : VirtioVringInfo
cleared = record { vq = 0; vaddr = 0; align = 0; num_descs = 0; notifyid = 0; io = 0 }

-- The loop at entry `i`, with `left` to go, that frees the virtqueues that are there.
pub free_queues : (ℕ → VirtioVringInfo) → (left i : ℕ) → Heap → Option Heap
free_queues infos zero i heap = some heap
free_queues infos (suc left) i heap = do
  heap ← if (infos i).vq == 0 then some heap else free heap (infos i).vq
  free_queues infos left (i + 1) heap

pub rproc_virtio_remove_vdev : Option Vdev → Heap → Option Heap
unfolding free_queues
rproc_virtio_remove_vdev none heap = some heap
rproc_virtio_remove_vdev (some vdev) heap = do
  heap ← free_queues vdev.vrings_info vdev.vrings_num 0 heap
  heap ← free heap vdev.infos
  free heap vdev.self

module _ (alloc : Alloc) (role : Role) (size : ℕ) (table : ℕ → ℕ) (rsc : ℕ) where
  -- `num_extra_desc`
  pub extra_descs : (i : ℕ) → Option ℕ
  extra_descs i = elim role [ master ↦ read32 size table (rsc + 28 + 20 * i + 8) | slave ↦ some 0 ]

  -- The loop at entry `i` with `left` to go; whether every virtqueue was allocated.
  pub allocate_queues :
      (left i : ℕ) → (ℕ → VirtioVringInfo) → Heap → Option (Bool × (ℕ → VirtioVringInfo) × Heap)
  unfolding extra_descs
  allocate_queues zero i infos heap = some (true, infos, heap)
  allocate_queues (suc left) i infos heap = do
    extra ← extra_descs i
    elim (alloc heap (for_virtqueue extra)) [
      | none ↦ some (false, infos, heap)
      | some vq ↦
          allocate_queues left (i + 1) (update infos i (record (infos i) { vq = vq }))
            (update heap vq true)
    ]

module _ {P : Type 0} (role : Role) (size : ℕ) (notify : P → (id : ℕ) → P) (notifyid rsc : ℕ) where
  -- The fields that the creation sets.
  abbrev pub created : (self infos num : ℕ) → (ℕ → VirtioVringInfo) → Vdev
  created self infos num vrings_info = record {
    self = self;
    infos = infos;
    vdev_rsc = rsc;
    notifyid = notifyid;
    role = role;
    vrings_num = num;
    vrings_info = vrings_info;
  }

  -- The end of the creation: on the master, the features of the device are negotiated.
  pub settle_vdev : Vdev → Shared P → Option (Shared P)
  unfolding rproc_virtio_negotiate_features rproc_virtio_get_dfeatures
  settle_vdev vdev s = elim role [
    | master ↦ do
      dfeatures ← rproc_virtio_get_dfeatures size vdev s.table
      (_, s) ← rproc_virtio_negotiate_features size notify vdev s dfeatures
      some s
    | slave ↦ some s
  ]

module _ {P : Type 0} (alloc : Alloc) (garbage : ℕ → VirtioVringInfo) (role : Role) (size : ℕ)
    (notify : P → (id : ℕ) → P) (notifyid rsc : ℕ) where
  -- From the allocation of the virtqueues on.
  pub fill_vdev : (self infos num : ℕ) → Heap → Shared P → Option (Option Vdev × Heap × Shared P)
  unfolding allocate_queues free_queues settle_vdev
  fill_vdev self infos num heap s = do
    (ok, vrings_info, heap) ←
        allocate_queues alloc role size s.table rsc num 0 (update garbage 0 cleared) heap
    elim ok [
      | true ↦ do
        let vdev = created role size notify notifyid rsc self infos num vrings_info
        s ← settle_vdev role size notify notifyid rsc vdev s
        some (some vdev, heap, s)
      | false ↦ do
        heap ← free_queues vrings_info num 0 heap
        heap ← free heap infos
        heap ← free heap self
        some (none, heap, s)
    ]

  -- The device is `none` for NULL. Where the entry has no vring, `memset` writes past the array.
  pub rproc_virtio_create_vdev : Heap → Shared P → Option (Option Vdev × Heap × Shared P)
  unfolding fill_vdev
  rproc_virtio_create_vdev heap s = do
    num ← load size s.table (rsc + 25)
    elim (alloc heap for_device) [
      | none ↦ some (none, heap, s)
      | some self ↦
          let heap1 = update heap self true in
          elim (alloc heap1 (for_infos num)) [
            | none ↦ do heap2 ← free heap1 self; some (none, heap2, s)
            | some array ↦
                if num == 0 then none else fill_vdev self array num (update heap1 array true) s
          ]
    ]
