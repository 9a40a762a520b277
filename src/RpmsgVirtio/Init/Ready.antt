-- ===== src/RpmsgVirtio/Init/Ready.antt =====
-- lib/rpmsg/rpmsg_virtio.c: what `rpmsg_init_vdev` leaves on a master.
use openamp.Base.{
  ℕ, ◌+◌, ◌-◌, ◌*◌, subst, sym, ◌^◌, ◌≤◌, ◌<◌, ◌≡◌, refl, Bool, true, false, some, List, [], arith,
  length, ◌==◌, not, bit_and,
}
use openamp.Virtqueue.{Virtqueue, ShmIo, master, success}
use openamp.Virtqueue.Driver.{virtqueue_create}
use openamp.Virtqueue.Driver.Create.{upto, create-IsDriver}
use openamp.Virtqueue.Driver.Owned.{IsDriver, pow-le}
use openamp.Virtqueue.Notify.Kick.{disable-IsDriver}
use openamp.RpmsgVirtio.Posted.{HasBuffer, HasBuffer-at}
use openamp.RpmsgVirtio.{ShmPool, rpmsg_buffer_size, status_driver_ok}
use openamp.RpmsgVirtio.Init.{
  VringInfo, zeroed, set_vq, create_from, virtio_create_virtqueues, vq_status, fill_rvq, VdevOps,
  InitState, finish, after_create, create_and_fill, rpmsg_init_vdev,
}
use openamp.RpmsgVirtio.Init.Fill.{fill_rvq-IsDriver}

-- What a queue is asked for at its creation: a power of two of at most 2 ^ 15 descriptors, and the
-- virtqueue as `virtqueue_allocate` leaves it.
pub record IsNew (info : VringInfo) (k : ℕ) : Type 0 where
  pub log_size_le : k ≤ 15
  pub num_descs : info.num_descs ≡ 2 ^ k
  pub not_inuse : info.vq.inuse ≡ false
  pub first : info.vq.desc_head_idx ≡ 0
  pub extra : info.vq.descx_num ≡ 2 ^ k
  pub no_cookies : (j : ℕ) → (info.vq.descx j).cookie ≡ 0

module _ (dbg : Bool) where
  -- Both queues are created.
  create_two :
      (features : ℕ) (vrings : ℕ → VringInfo) (rvq svq : Virtqueue)
      → virtqueue_create dbg master features 0
          (vrings 0).num_descs
          (zeroed (vrings 0).mem)
          true
          true
          (vrings 0).vq
        ≡ some (success, rvq)
      → virtqueue_create dbg master features 1
          (vrings 1).num_descs
          (zeroed (vrings 1).mem)
          true
          true
          (vrings 1).vq
        ≡ some (success, svq)
      → virtio_create_virtqueues dbg master features 2 2 vrings
        ≡ some (success, set_vq (set_vq vrings 0 rvq) 1 svq)
  unfolding virtio_create_virtqueues create_from
  create_two features vrings rvq svq er es = rw (er, es) refl

  created :
      (features k j : ℕ) (vrings : ℕ → VringInfo)
      → IsNew (vrings 0) k
      → IsNew (vrings 1) j
      → (rvq svq : Virtqueue) × (virtio_create_virtqueues dbg master features 2 2 vrings
          ≡ some (success, set_vq (set_vq vrings 0 rvq) 1 svq))
        × IsDriver rvq (upto 0 (2 ^ k)) []
        × (rvq.nentries ≡ 2 ^ k)
        × IsDriver svq (upto 0 (2 ^ j)) []
  created features k j vrings a b =
      let (rvq, er, vr, nr) =
        create-IsDriver dbg features 0 k (zeroed (vrings 0).mem) true true (vrings 0).vq
          a.log_size_le a.not_inuse a.first a.extra a.no_cookies in
      let (svq, es, vs, _) =
        create-IsDriver dbg features 1 j (zeroed (vrings 1).mem) true true (vrings 1).vq
          b.log_size_le b.not_inuse b.first b.extra b.no_cookies in
      let er' =
        subst
          (λ n.
            virtqueue_create dbg master features 0 n (zeroed (vrings 0).mem) true true (vrings 0).vq
            ≡ some (success, rvq))
          (sym a.num_descs) er in
      let es' =
        subst
          (λ n.
            virtqueue_create dbg master features 1 n (zeroed (vrings 1).mem) true true (vrings 1).vq
            ≡ some (success, svq))
          (sym b.num_descs) es in
      (rvq, svq, create_two features vrings rvq svq er' es', vr, nr, vs)

module _ {B D : Type 0} (ops : VdevOps D) (dbg : Bool) (io : ShmIo) where
  -- On a master with two new queues of 2 ^ k and 2 ^ j descriptors, and with a pool whose base is
  -- not NULL, which has a buffer for every descriptor of the first one and no more than its size,
  -- `rpmsg_init_vdev` succeeds: the receive queue has all its 2 ^ k descriptors in flight, and
  -- they hold, in order, the next 2 ^ k buffers of the pool, each for the other side to write and
  -- with its address as the cookie. The send queue has all its descriptors free, the pool is less
  -- by these buffers, and the virtio device gets the status DRIVER_OK.
  pub init_vdev-IsDriver :
      (fuel ns_cb k j : ℕ) (s : InitState B D) (pool : ShmPool)
      → IsNew (s.vrings 0) k
      → IsNew (s.vrings 1) j
      → s.shpool ≡ some pool
      → 2 ^ k * rpmsg_buffer_size ≤ pool.avail
      → pool.avail ≤ pool.size
      → 0 < pool.base
      → (s' : InitState B D) × (busy : List (List ℕ)) × (pool' : ShmPool) × (rpmsg_init_vdev ops dbg
            io fuel master 2 ns_cb s
          ≡ some (vq_status success, s'))
        × IsDriver (s'.vrings s'.rvq).vq [] busy
        × (length busy ≡ 2 ^ k)
        × IsDriver (s'.vrings s'.svq).vq (upto 0 (2 ^ j)) []
        × (s'.shpool ≡ some pool')
        × (pool'.avail + 2 ^ k * rpmsg_buffer_size ≡ pool.avail)
        × ((j : ℕ)
            → j < 2 ^ k
            → HasBuffer io
                (s'.vrings s'.rvq).vq
                j
                (pool.base + (pool.size - pool.avail) + rpmsg_buffer_size * j)
                rpmsg_buffer_size
                2)
        × (s'.dev ≡ ops.set_status s.dev status_driver_ok)
  unfolding rpmsg_init_vdev create_and_fill after_create
  init_vdev-IsDriver fuel ns_cb k j s pool a b has fits inside based =
      let features = ops.get_features s.dev in
      let (rvq, svq, ec, vr, nr, vs) = created dbg features k j s.vrings a b in
      let (svq', ed, vd) = disable-IsDriver dbg svq (upto 0 (2 ^ j)) [] vs in
      let (rvq', busy, pool', ef, vf, chains, rest, posted, _) =
        fill_rvq-IsDriver dbg io (2 ^ k) 0 rvq [] pool vr fits inside based in
      let vrings = set_vq (set_vq (set_vq (set_vq s.vrings 0 rvq) 1 svq) 1 svq') 0 rvq' in
      let room : (pool.size == 0) ≡ false = ground (arith, pow-le k a.log_size_le) in
      let ef' =
        subst (λ n. fill_rvq dbg io n rvq pool ≡ some (vq_status success, rvq', pool')) (sym nr)
          ef in
      let s1 : InitState B D = record s {
        rdev = record s.rdev { has_send = true; support_ns = not (bit_and features 1 == 0) };
        vrings = vrings;
        shpool = some pool';
        rvq = 0;
        svq = 1;
      } in
      (
        finish ops dbg io master ns_cb s1,
        busy,
        pool',
        ground (arith, has, room, ec, ed, ef'),
        vf,
        omega (arith, chains),
        vd,
        refl,
        rest,
        λ j lt. HasBuffer-at io rvq' (omega arith) refl (posted j lt),
        refl,
      )
