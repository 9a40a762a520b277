-- ===== src/RpmsgVirtio/Init.antt =====
-- lib/virtio/virtio.c: `virtio_create_virtqueues`, and lib/rpmsg/rpmsg_virtio.c: `rpmsg_init_vdev`,
-- `rpmsg_virtio_wait_remote_ready` and `rpmsg_deinit_vdev`.
--
-- A pointer to a virtqueue is the number of its entry in `vdev->vrings_info`. The functions of
-- `vdev->func` are a parameter, steps of the state `D` of the virtio device. The buffers that are cleared
-- are outside the model. The wait of a slave runs on fuel.
mod Fill
pub mod Ready
pub mod Close
use openamp.Base.{
  ℕ, zero, suc, ◌+◌, ◌-◌, Bool, true, false, not, Option, none, some, List, [], ◌∷◌, ltb, ◌==◌,
  bit_and, if◌then◌else◌, ◌>>=◌,
}
use openamp.Base.Array.{update}
use openamp.Vring.{Vring}
use openamp.Rpmsg.{RpmsgEndpoint, RpmsgDevice, MetalBitmap, Send, ns_ept_addr}
use openamp.Rpmsg.Endpoint.{rpmsg_initialize_ept, rpmsg_register_endpoint, rpmsg_destroy_ept}
use openamp.Virtqueue.{
  Virtqueue, ShmIo, Role, master, slave, Status, success, invld_param, is_success,
}
use openamp.Virtqueue.Driver.{virtqueue_create, virtqueue_add_buffer}
use openamp.Virtqueue.Notify.{virtqueue_disable_cb}
use openamp.RpmsgVirtio.{
  RpmsgVirtioDevice, ShmPool, rpmsg_buffer_size, rpmsg_virtio_shm_pool_get_buffer, status_driver_ok,
}

-- VIRTIO_CONFIG_STATUS_NEEDS_RESET
abbrev pub status_needs_reset : ℕ
status_needs_reset = 0x40

-- `struct virtio_vring_info`: the virtqueue as it was allocated, and the vring in its memory.
pub record VringInfo : Type 0 where
  pub vq : Virtqueue
  pub num_descs : ℕ
  pub mem : Vring

-- The memory of a vring set to 0.
abbrev pub zeroed : Vring → Vring
zeroed mem = record {
  num = mem.num;
  desc = λ i. record { addr = 0; len = 0; flags = 0; next = 0 };
  avail_flags = 0;
  avail_idx = 0;
  avail_ring = λ i. 0;
  used_event = 0;
  used_flags = 0;
  used_idx = 0;
  used_ring = λ i. record { id = 0; len = 0 };
  avail_event = 0;
}

abbrev pub memory_for : Role → Vring → Vring
memory_for master mem = zeroed mem
memory_for slave mem = mem

abbrev pub set_vq : (ℕ → VringInfo) → (i : ℕ) → Virtqueue → ℕ → VringInfo
set_vq vrings i vq = update vrings i (record (vrings i) { vq = vq })

module _ (dbg : Bool) (role : Role) (features : ℕ) where
  -- The loop at entry `i` with `left` to go.
  pub create_from : (left i : ℕ) → (ℕ → VringInfo) → Option (Status × (ℕ → VringInfo))
  create_from zero i vrings = some (success, vrings)
  create_from (suc left) i vrings = do
    let info = vrings i
    (ret, vq) ←
        virtqueue_create dbg role features i info.num_descs (memory_for role info.mem) true true
          info.vq
    elim (is_success ret) [
      | true ↦ create_from left (i + 1) (set_vq vrings i vq)
      | false ↦ some (ret, set_vq vrings i vq)
    ]

  -- `virtio_create_virtqueues`; the callbacks and the notify function are there.
  pub virtio_create_virtqueues :
      (vrings_num nvqs : ℕ) → (ℕ → VringInfo) → Option (Status × (ℕ → VringInfo))
  unfolding create_from
  virtio_create_virtqueues vrings_num nvqs vrings =
      if ltb vrings_num nvqs then some (invld_param, vrings) else create_from nvqs 0 vrings

-- What `rpmsg_init_vdev` returns.
pub data InitRet : Type 0 where
  param no_buff : InitRet
  vq_status : Status → InitRet

module _ (dbg : Bool) (io : ShmIo) where
  -- The loop that fills the receive queue of a master, with `left` buffers to go.
  pub fill_rvq : (left : ℕ) → Virtqueue → ShmPool → Option (InitRet × Virtqueue × ShmPool)
  fill_rvq zero rvq shpool = some (vq_status success, rvq, shpool)
  fill_rvq (suc left) rvq shpool =
      let (buffer, shpool) = rpmsg_virtio_shm_pool_get_buffer shpool rpmsg_buffer_size in
      elim buffer [
        | none ↦ some (no_buff, rvq, shpool)
        | some addr ↦ do
          (ret, rvq) ←
              virtqueue_add_buffer dbg io rvq (record { buf = addr; len = rpmsg_buffer_size } ∷ [])
                0 1 addr
          elim (is_success ret) [
            | true ↦ fill_rvq left rvq shpool
            | false ↦ some (vq_status ret, rvq, shpool)
          ]
      ]

-- The functions of `vdev->func` that are used.
pub record VdevOps (D : Type 0) : Type 0 where
  pub get_status : D → ℕ × D
  pub set_status : D → (status : ℕ) → D
  pub get_features : D → ℕ

-- What `rpmsg_init_vdev` works on; `rvq` and `svq` are the pointers of the device.
pub record InitState (B D : Type 0) : Type 0 where
  pub dev : D
  pub rdev : RpmsgDevice B
  pub vrings : ℕ → VringInfo
  pub shpool : Option ShmPool
  pub rvq : ℕ
  pub svq : ℕ

module _ {D : Type 0} (ops : VdevOps D) where
  -- `rpmsg_virtio_wait_remote_ready`
  pub wait_remote_ready : (fuel : ℕ) → D → Option D
  wait_remote_ready zero dev = none
  wait_remote_ready (suc fuel) dev =
      let (st, dev) = ops.get_status dev in
      elim (bit_and st status_needs_reset == 0) [
        | false ↦ wait_remote_ready fuel (ops.set_status dev 0)
        | true ↦ elim (bit_and st status_driver_ok == 0) [
          | false ↦ some dev
          | true ↦ wait_remote_ready fuel dev
        ]
      ]

  abbrev pub wait_for_role : (fuel : ℕ) → Role → D → Option D
  wait_for_role fuel master dev = some dev
  wait_for_role fuel slave dev = wait_remote_ready fuel dev

  module _ {B : Type 0} (dbg : Bool) (io : ShmIo) where
    -- The name service endpoint, and the status that tells the other core.
    pub finish : (role : Role) → (ns_cb : ℕ) → InitState B D → InitState B D
    finish role ns_cb s =
        let rdev = record s.rdev { endpoints = [] } in
        let ns =
          rpmsg_initialize_ept (rdev.eps rdev.ns_ept) (some (0x4e ∷ 0x53 ∷ [])) ns_ept_addr
            ns_ept_addr ns_cb 0 in
        record s {
          rdev =
              if rdev.support_ns
              then rpmsg_register_endpoint (record rdev { eps = update rdev.eps rdev.ns_ept ns })
                  rdev.ns_ept
              else rdev;
          dev = elim role [ master ↦ ops.set_status s.dev status_driver_ok | slave ↦ s.dev ];
        }

    -- The part after the virtqueues were created.
    pub after_create :
        (role : Role) → (ns_cb : ℕ) → InitState B D → Option (InitRet × InitState B D)
    unfolding fill_rvq finish
    after_create role ns_cb s = do
      svq ← virtqueue_disable_cb dbg (s.vrings s.svq).vq
      let s = record s { vrings = set_vq s.vrings s.svq svq }
      elim role [
        | slave ↦ some (vq_status success, finish slave ns_cb s)
        | master ↦ elim s.shpool [
          | none ↦ some (param, s)
          | some pool ↦ do
            let rvq = (s.vrings s.rvq).vq
            (ret, rvq, pool) ← fill_rvq dbg io rvq.nentries rvq pool
            let s = record s { vrings = set_vq s.vrings s.rvq rvq; shpool = some pool }
            (elim ret [
              | param ↦ some (param, s)
              | no_buff ↦ some (no_buff, s)
              | vq_status st ↦
                  if is_success st
                  then some (vq_status st, finish master ns_cb s)
                  else some (vq_status st, s)
            ])
        ]
      ]

    -- The creation of the virtqueues.
    pub create_and_fill :
        (role : Role)
        → (features vrings_num ns_cb : ℕ) → InitState B D
        → Option (InitRet × InitState B D)
    unfolding after_create
    create_and_fill role features vrings_num ns_cb s = do
      (ret, vrings) ← virtio_create_virtqueues dbg role features vrings_num 2 s.vrings
      let s = record s { vrings = vrings }
      (if is_success ret then after_create role ns_cb s else some (vq_status ret, s))

    -- `rpmsg_init_vdev`, on the state with `rdev` as the `memset` leaves it, with the callback for new
    -- services.
    pub rpmsg_init_vdev :
        (fuel : ℕ)
        → (role : Role) → (vrings_num ns_cb : ℕ) → InitState B D
        → Option (InitRet × InitState B D)
    unfolding wait_remote_ready create_and_fill
    rpmsg_init_vdev fuel role vrings_num ns_cb s = do
      dev ← wait_for_role fuel role s.dev
      let features = ops.get_features dev
      let rdev = record s.rdev { has_send = true; support_ns = not (bit_and features 1 == 0) }
      let s = record s { dev = dev; rdev = rdev }
      elim role [
        | slave ↦ create_and_fill slave features vrings_num ns_cb (record s { rvq = 1; svq = 0 })
        | master ↦ elim s.shpool [
          | none ↦ some (param, s)
          | some pool ↦
              if pool.size == 0
              then some (no_buff, s)
              else create_and_fill master features vrings_num ns_cb (record s { rvq = 0; svq = 1 })
        ]
      ]

-- `rpmsg_deinit_vdev`: the first endpoint is destroyed until there is none; the pointers to the virtqueues
-- are NULL afterwards.
pub rpmsg_deinit_vdev :
    {B T : Type 0}
    → MetalBitmap B
    → Send T
    → (fuel : ℕ) → RpmsgDevice B
    → T
    → Option (RpmsgDevice B × T)
rpmsg_deinit_vdev m send zero rdev t = elim rdev.endpoints [ [] ↦ some (rdev, t) | p ∷ ps ↦ none ]
rpmsg_deinit_vdev m send (suc fuel) rdev t = elim rdev.endpoints [
  | [] ↦ some (rdev, t)
  | p ∷ ps ↦
      let (rdev', t') = rpmsg_destroy_ept m send rdev t p in rpmsg_deinit_vdev m send fuel rdev' t'
]
