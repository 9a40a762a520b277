-- ===== src/Remoteproc/Virtio/Devices.antt =====
-- lib/remoteproc/remoteproc.c: `remoteproc_create_virtio`, `remoteproc_remove_virtio` and
-- `remoteproc_get_notification`.
--
-- `DevState` is what these calls change: the bytes of the resource table at `rproc->rsc_table`, which is the
-- start of the region `rproc->rsc_io`, the platform, the heap and the list `rproc->vdevs`. A device is named by
-- its address, 0 is NULL. The calls hold the lock of the remote processor.
pub mod Vrings
pub mod Restore
use openamp.Base.{
  ℕ, zero, suc, ◌+◌, ◌*◌, ◌^◌, Bool, true, false, Option, none, some, List, [], ◌∷◌, ◌++◌, ◌==◌,
  if◌then◌else◌, ◌>>=◌,
}
use openamp.Base.Array.{load}
use openamp.Base.Int.{ℤ, pos, is_zero}
use openamp.Vring.{vring_size, int_as_size}
use openamp.Virtqueue.{Virtqueue, Role}
use openamp.Remoteproc.{Remoteproc}
use openamp.Remoteproc.Memory.{MetalIo, Mmap, remoteproc_mmap}
use openamp.Remoteproc.RscTable.{read32, find_rsc}
use openamp.Remoteproc.Virtio.{
  VirtioVringInfo, Vdev, Shared, rproc_virtio_init_vring, rproc_virtio_notified,
  rproc_virtio_wait_remote_ready,
}
use openamp.Remoteproc.Virtio.Lifetime.{
  Heap, Alloc, rproc_virtio_create_vdev, rproc_virtio_remove_vdev,
}

pub record DevState (P : Type 0) : Type 0 where
  pub table : ℕ → ℕ
  pub platform : P
  pub heap : Heap
  pub vdevs : List Vdev

-- RSC_VDEV
abbrev pub rsc_vdev : ℕ
rsc_vdev = 3

-- The device of a notification id in the list, and the list without the device at an address.
abbrev pub with_notifyid : List Vdev → (notifyid : ℕ) → Option Vdev
with_notifyid [] notifyid = none
with_notifyid (vdev ∷ vdevs) notifyid =
    let rest = with_notifyid vdevs notifyid in if vdev.notifyid == notifyid then some vdev else rest

pub list_del : List Vdev → (self : ℕ) → List Vdev
list_del [] self = []
list_del (vdev ∷ vdevs) self =
    let rest = list_del vdevs self in if vdev.self == self then vdevs else vdev ∷ rest

pub remoteproc_remove_virtio : {P : Type 0} → DevState P → Vdev → Option (DevState P)
unfolding list_del
remoteproc_remove_virtio s vdev = do
  heap ← rproc_virtio_remove_vdev (some vdev) s.heap
  some (record s { heap = heap; vdevs = list_del s.vdevs vdev.self })

module _ {P : Type 0} (queue : P → (vq : ℕ) → Virtqueue) (callback : P → (vq : ℕ) → P) where
  pub remoteproc_get_notification : List Vdev → (notifyid : ℕ) → P → ℤ × P
  remoteproc_get_notification [] notifyid p = (pos 0, p)
  remoteproc_get_notification (vdev ∷ vdevs) notifyid p =
      let (ret, p) = rproc_virtio_notified queue callback (some vdev) notifyid p in
      let rest = remoteproc_get_notification vdevs notifyid p in
      if is_zero ret then rest else (ret, p)

module _ {B P : Type 0} (metal : MetalIo) (rproc : Remoteproc B) (mmap : Option (Mmap P)) (size : ℕ)
    (table : ℕ → ℕ) (rsc : ℕ) where
  -- The loop over the vrings at entry `i` with `left` to go; whether it reached its end. `io` is what the
  -- variable of that name holds.
  pub init_vrings : (left i io : ℕ) → Vdev → P → Option (Bool × Vdev × P)
  init_vrings zero i io vdev p = some (true, vdev, p)
  init_vrings (suc left) i io vdev p = do
    let vring = rsc + 28 + 20 * i
    notifyid ← read32 size table (vring + 12)
    da ← read32 size table vring
    num_descs ← read32 size table (vring + 8)
    align ← read32 size table (vring + 4)
    let (m, p) =
        remoteproc_mmap metal rproc mmap p none (some da) (int_as_size (vring_size num_descs align))
          0 io
    elim (m.va == 0) [
      | true ↦ some (false, vdev, p)
      | false ↦
          let (ret, vdev) = rproc_virtio_init_vring vdev i notifyid m.va m.io num_descs align in
          elim (is_zero ret) [
            | true ↦ init_vrings left (i + 1) m.io vdev p
            | false ↦ some (false, vdev, p)
          ]
    ]

module _ {B P : Type 0} (metal : MetalIo) (rproc : Remoteproc B) (mmap : Option (Mmap P))
    (notify : P → (id : ℕ) → P) (yield : (ℕ → ℕ) → ℕ → ℕ) (fuel : ℕ) (alloc : Alloc)
    (garbage : ℕ → VirtioVringInfo) (size : ℕ) (role : Role) where
  -- From the creation of the device on, with the device entry at `rsc` and `io` the variable.
  pub create_new : (rsc notifyid io : ℕ) → DevState P → Option (ℕ × DevState P)
  unfolding init_vrings remoteproc_remove_virtio
  create_new rsc notifyid io s = do
    (created, heap, sh) ←
        rproc_virtio_create_vdev alloc garbage role size notify notifyid rsc s.heap
          (record { table = s.table; platform = s.platform })
    elim created [
      | none ↦ some (0, record s { table = sh.table; platform = sh.platform; heap = heap })
      | some vdev ↦ do
        table ← rproc_virtio_wait_remote_ready size vdev yield fuel sh.table
        num_vrings ← load size table (rsc + 25)
        (ok, vdev', p) ←
            init_vrings metal rproc mmap size table rsc num_vrings 0 io vdev sh.platform
        let s' : DevState P = record {
          table = table;
          platform = p;
          heap = heap;
          vdevs = s.vdevs ++ (vdev' ∷ []);
        }
        elim ok [
          | true ↦ some (vdev'.self, s')
          | false ↦ do s'' ← remoteproc_remove_virtio s' vdev'; some (0, s'')
        ]
    ]

  pub remoteproc_create_virtio : (vdev_id io : ℕ) → DevState P → Option (ℕ × DevState P)
  unfolding create_new
  remoteproc_create_virtio vdev_id io s = do
    rsc ← find_rsc size s.table rsc_vdev vdev_id
    elim (rsc == 0) [
      | true ↦ some (0, s)
      | false ↦ do
        notifyid ← read32 size s.table (rsc + 8)
        elim (with_notifyid s.vdevs notifyid) [
          | some vdev ↦ some (vdev.self, s)
          | none ↦ create_new rsc notifyid io s
        ]
    ]
