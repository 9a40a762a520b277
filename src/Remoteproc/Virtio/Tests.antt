-- ===== src/Remoteproc/Virtio/Tests.antt =====
-- The theorems of the remote processor's devices applied to a resource table of 100 bytes with one device entry
-- at 24, whose id is 7, with features 5, 16 bytes of configuration and one vring, whose id is 9. There is
-- memory for three blocks.
use openamp.Base.{
  Option, ℕ, zero, ◌+◌, ◌≤◌, ◌<◌, ◌≡◌, ◌⊎◌, refl, Bool, false, none, some, List, [], ◌∷◌, arith,
  ◌==◌, if◌then◌else◌,
}
use openamp.Base.Int.{pos}
use openamp.Virtqueue.{Virtqueue, Role, master, slave}
use openamp.Virtqueue.Examples.{idle_queue}
use openamp.Remoteproc.{Remoteproc, RemoteprocMem, offline, bad_phys}
use openamp.Remoteproc.Memory.{MetalIo, Mmap}
use openamp.Remoteproc.Virtio.{
  VirtioVringInfo, Vdev, Shared, notification, rproc_virtio_get_dfeatures,
  rproc_virtio_get_features, rproc_virtio_get_status, rproc_virtio_negotiate_features,
  rproc_virtio_read_config, rproc_virtio_write_config, rproc_virtio_virtqueue_notify,
  rproc_virtio_notified,
}
use openamp.Remoteproc.Virtio.Config.{config-roundtrip, negotiate_features-get}
use openamp.Remoteproc.Virtio.Queues.{kick_arrives}
use openamp.Remoteproc.Virtio.Lifetime.{Heap, Alloc, rproc_virtio_create_vdev}
use openamp.Remoteproc.Virtio.Lifetime.Allocate.{IsAlloc, NoMemory}
use openamp.Remoteproc.Virtio.Lifetime.Balance.{IsCreated, create_vdev-balanced}
use openamp.Remoteproc.Virtio.Devices.{DevState}

abbrev entry : ℕ → ℕ
entry zero = 1
entry i =
    if i == 4
    then 1
    else (if i == 16
        then 24
        else (if i == 24
            then 3
            else (if i == 32
                then 7
                else (if i == 36
                    then 5
                    else (if i == 44
                        then 16
                        else (if i == 48
                            then 4
                            else (if i == 49
                                then 1
                                else (if i == 60 then 4 else (if i == 64 then 9 else 0)))))))))

abbrev infos_of : (notifyid vq : ℕ) → VirtioVringInfo
infos_of notifyid vq = record {
  vq = vq;
  vaddr = 0;
  align = 4096;
  num_descs = 4;
  notifyid = notifyid;
  io = 5;
}

abbrev vdev_with : (role : Role) (self : ℕ) → Vdev
vdev_with role self = record {
  self = self;
  infos = 101;
  vdev_rsc = 24;
  notifyid = 7;
  role = role;
  vrings_num = 2;
  vrings_info = λ i. infos_of (9 + i) (200 + i);
}

-- The platform lists the ids and the virtqueues that it was told of.
abbrev tell : List ℕ → (id : ℕ) → List ℕ
tell ids id = id ∷ ids

abbrev here : Shared (List ℕ)
here = record { table = entry; platform = [] }

abbrev two_bytes : List ℕ
two_bytes = 17 ∷ 18 ∷ []

config-roundtrip_example :
    let vdev = record (vdev_with master 100) { vrings_num = 1 } in
    (s' : Shared (List ℕ)) × (rproc_virtio_write_config 100 tell vdev here 3 two_bytes ≡ some s')
    × (rproc_virtio_read_config 100 vdev s'.table 3 2 ≡ some (some two_bytes))
    × (s'.platform ≡ 7 ∷ [])
    × ((j : ℕ) → (j < 72 + 3) ⊎ (72 + 3 + 2 ≤ j) → s'.table j ≡ entry j)
config-roundtrip_example =
    config-roundtrip 100 tell (record (vdev_with master 100) { vrings_num = 1 }) here 16 3 two_bytes
      refl (omega arith) (omega arith) (omega arith)

negotiate_features-get_example :
    let vdev = vdev_with master 100 in
    (s' : Shared (List ℕ)) × (rproc_virtio_negotiate_features 100 tell vdev here 6 ≡ some (0, s'))
    × (rproc_virtio_get_features 100 vdev s'.table ≡ some 4)
    × (rproc_virtio_get_dfeatures 100 vdev s'.table ≡ some 5)
    × (rproc_virtio_get_status 100 vdev s'.table ≡ rproc_virtio_get_status 100 vdev entry)
    × (s'.platform ≡ 7 ∷ [])
    × ((j : ℕ) → (j < 40) ⊎ (44 ≤ j) → s'.table j ≡ entry j)
unfolding rproc_virtio_get_dfeatures
negotiate_features-get_example =
    negotiate_features-get 100 tell (vdev_with master 100) here 6 5 refl (omega arith) (omega arith)

-- The master sets the status in the second turn.
abbrev not_yet : ℕ → ℕ
not_yet i = if i == 48 then 0 else entry i

abbrev set_ok : (ℕ → ℕ) → ℕ → ℕ
set_ok table = entry

abbrev queue_of : List ℕ → (vq : ℕ) → Virtqueue
queue_of p vq = idle_queue

kick_arrives_example :
    let own = vdev_with master 100 in
    let peer = vdev_with slave 300 in
    (id : ℕ) × (rproc_virtio_virtqueue_notify tell own [] 1 ≡ some (id ∷ []))
    × (rproc_virtio_notified queue_of tell (some peer) id []
        ≡ (pos 0, notification queue_of tell [] 201))
kick_arrives_example =
    kick_arrives queue_of tell tell (vdev_with master 100) (vdev_with slave 300) 1 [] []
      (omega arith) refl (λ j lt. refl) (λ j k lj lk e. omega arith) (omega arith) (omega arith)

abbrev three_blocks : Alloc
three_blocks heap block =
    if heap 100
    then (if heap 101 then (if heap 102 then none else some 102) else some 101)
    else some 100

three_blocks-IsAlloc : IsAlloc three_blocks
three_blocks-IsAlloc = record { fresh = λ heap block p e. (ground (arith, e), ground (arith, e)) }

abbrev no_blocks : Heap
no_blocks p = false

abbrev null_infos : ℕ → VirtioVringInfo
null_infos i = infos_of 0 0

create_vdev-balanced_example :
    let r = rproc_virtio_create_vdev three_blocks null_infos master 100 tell 7 24 no_blocks here in
    ((r ≡ some (none, no_blocks, here)) × NoMemory three_blocks no_blocks)
    ⊎ ((vdev : Vdev) × (heap' : Heap) × (s' : Shared (List ℕ)) × (r ≡ some (some vdev, heap', s'))
        × IsCreated master 7 24 1 no_blocks heap' here s' vdev)
create_vdev-balanced_example =
    create_vdev-balanced three_blocks three_blocks-IsAlloc null_infos (λ j lt. refl) master 100 tell
      7 24 no_blocks 1 here refl (omega arith) (omega arith)

abbrev memory : RemoteprocMem
memory = record { da = 0; pa = 0x3000_0000; size = 0x4000; name = 0x61 ∷ []; io = 5 }

abbrev rproc_here : Remoteproc (ℕ → Bool)
rproc_here = record { state = offline; mems = memory ∷ []; bitmap = no_blocks }

abbrev plain_io : MetalIo
plain_io = record {
  virt_to_offset = λ io va. bad_phys;
  phys_to_offset = λ io pa. pa;
  phys_to_virt = λ io pa. pa;
}

abbrev none_yet : DevState (List ℕ)
none_yet = record { table = entry; platform = []; heap = no_blocks; vdevs = [] }

abbrev no_mmap : Option (Mmap (List ℕ))
no_mmap = none
