-- ===== src/Virtqueue/Driver.antt =====
-- lib/virtio/virtqueue.c, the side that owns the descriptors: `virtqueue_create`,
-- `virtqueue_add_buffer`, `virtqueue_get_buffer` and their helpers.
pub mod Add
pub mod Chain
pub mod Create
pub mod Errors
pub mod Get
pub mod Owned
use openamp.Base.{
  ℕ, zero, suc, ◌+◌, ◌-◌, ◌%◌, ◌^◌, Bool, true, false, not, Option, none, some, List, bit_and,
  bit_or, ltb, leb, ◌==◌, if◌then◌else◌, ◌>>=◌, ◌>>◌, get_elem?,
}
use openamp.Base.Array.{load, store}
use openamp.Vring.{Vring, VringDesc, desc_f_next, desc_f_write, desc_f_indirect, add16, sub16}
use openamp.Virtqueue.{
  Virtqueue, VirtqueueBuf, ShmIo, Status, success, vring_full, vring_align, invld_param, is_success,
  Role, master, slave, chain_end, ring_index, vqassert, param_chk, busy, idle, assert_valid_idx,
  assert_chain_term,
}

-- The loop of `vq_ring_init`: `next = i + 1` for `left` entries from `i` on, then the end mark.
pub init_loop : (num left i : ℕ) → (ℕ → VringDesc) → Option (ℕ → VringDesc)
init_loop num zero i desc = do
  dp ← load num desc i
  store num desc i (record dp { next = chain_end })
init_loop num (suc left) i desc = do
  dp ← load num desc i
  desc ← store num desc i (record dp { next = (i + 1) % 2 ^ 16 })
  init_loop num left (i + 1) desc

-- `vq_ring_init`: `mem` is the ring memory at `ring->vaddr`. Only the master links the descriptors.
pub vq_ring_init : Virtqueue → Vring → Option Virtqueue
unfolding init_loop
vq_ring_init vq mem =
    let vr : Vring = record mem { num = vq.nentries } in
    elim vq.role [
      | master ↦ do
        desc ← init_loop vr.num (vq.nentries - 1) 0 vr.desc
        some (record vq { vring = record vr { desc = desc } })
      | slave ↦ some (record vq { vring = vr })
    ]

-- `vring_desc` as `vq_ring_add_buffer` fills it for buffer number `i`.
abbrev pub desc_flags : (i readable needed : ℕ) → ℕ
desc_flags i readable needed =
    bit_or (if ltb i (needed - 1) then desc_f_next else 0)
      (if leb readable i then desc_f_write else 0)

-- `vq_ring_update_avail`
pub vq_ring_update_avail : Virtqueue → ℕ → Option Virtqueue
vq_ring_update_avail vq desc_idx = do
  let vr = vq.vring
  avail ← store vr.num vr.avail_ring (ring_index vr.avail_idx vq.nentries) desc_idx
  some (record vq {
    vring = record vr { avail_ring = avail; avail_idx = add16 vr.avail_idx 1 };
    queued_cnt = add16 vq.queued_cnt 1;
  })

-- What `virtqueue_get_buffer` returns: the cookie, and through its pointers the length and the index
-- in the used ring.
pub record Got : Type 0 where
  pub cookie : ℕ
  pub len : ℕ
  pub idx : ℕ

module _ (dbg : Bool) where
  -- `virtqueue_create` on a `vq` that `virtqueue_allocate` has zeroed; `num_descs` is that of the
  -- `vring_alloc_info`, whose `vaddr` leads to `mem`.
  pub virtqueue_create :
      (role : Role) (features id num_descs : ℕ) (mem : Vring) (callback notify : Bool)
      → Virtqueue
      → Option (Status × Virtqueue)
  unfolding vq_ring_init
  virtqueue_create role features id num_descs mem callback notify vq =
      let status =
        param_chk dbg (not (bit_and num_descs ((num_descs + 2 ^ 32 - 1) % 2 ^ 32) == 0)) vring_align
          (param_chk dbg (num_descs == 0) invld_param success) in
      if is_success status
      then (do
        vq ←
            vq_ring_init
              (record vq {
                role = role;
                features = features;
                queue_index = id;
                nentries = num_descs;
                free_cnt = num_descs;
                callback = callback;
                notify = notify;
              })
              mem
        some (status, vq))
      else some (status, vq)

  -- `vq_ring_free_chain` follows the descriptors that are marked NEXT; a chain that is longer than
  -- the fuel is a cycle.
  pub free_walk : (fuel : ℕ) → Virtqueue → (idx ndescs : ℕ) → Option (ℕ × ℕ)
  free_walk zero vq idx ndescs = none
  free_walk (suc fuel) vq idx ndescs = do
    dp ← load vq.vring.num vq.vring.desc idx
    elim (bit_and dp.flags desc_f_next == 0) [
      | true ↦ some (idx, ndescs)
      | false ↦ do assert_valid_idx dbg vq dp.next; free_walk fuel vq dp.next (sub16 ndescs 1)
    ]

  pub vq_ring_free_chain : Virtqueue → (desc_idx : ℕ) → Option Virtqueue
  unfolding free_walk
  vq_ring_free_chain vq desc_idx = do
    assert_valid_idx dbg vq desc_idx
    dp ← load vq.vring.num vq.vring.desc desc_idx
    dxp ← load vq.descx_num vq.descx desc_idx
    (if vq.free_cnt == 0 then assert_chain_term dbg vq else some tt)
    (last, ndescs) ←
        (if bit_and dp.flags desc_f_indirect == 0
          then free_walk (vq.nentries + 1) vq desc_idx (sub16 dxp.ndescs 1)
          else some (desc_idx, sub16 dxp.ndescs 1))
    vqassert dbg (ndescs == 0)
    descx ← store vq.descx_num vq.descx desc_idx (record dxp { ndescs = ndescs })
    lp ← load vq.vring.num vq.vring.desc last
    desc ← store vq.vring.num vq.vring.desc last (record lp { next = vq.desc_head_idx })
    some (record vq {
      free_cnt = add16 vq.free_cnt dxp.ndescs;
      descx = descx;
      vring = record vq.vring { desc = desc };
      desc_head_idx = desc_idx;
    })

  -- `virtqueue_get_buffer`: `none` inside is NULL, with nothing to consume.
  pub virtqueue_get_buffer : Virtqueue → Option (Option Got × Virtqueue)
  unfolding vq_ring_free_chain
  virtqueue_get_buffer vq = if vq.used_cons_idx == vq.vring.used_idx then some (none, vq) else do
    vq ← busy dbg vq
    let used_idx = ring_index vq.used_cons_idx vq.nentries
    uep ← load vq.vring.num vq.vring.used_ring used_idx
    let desc_idx = uep.id % 2 ^ 16
    vq ← vq_ring_free_chain (record vq { used_cons_idx = add16 vq.used_cons_idx 1 }) desc_idx
    dxp ← load vq.descx_num vq.descx desc_idx
    descx ← store vq.descx_num vq.descx desc_idx (record dxp { cookie = 0 })
    some (
      some (record { cookie = dxp.cookie; len = uep.len; idx = used_idx }),
      idle dbg (record vq { descx = descx }),
    )

  module _ (io : ShmIo) where
    -- The loop of `vq_ring_add_buffer`, at buffer `i` and descriptor `idx`, with `left` rounds to go.
    pub add_loop :
        (bufs : List VirtqueueBuf) (readable needed i idx left : ℕ) → Vring → Option (ℕ × Vring)
    add_loop bufs readable needed i idx zero vr = some (idx, vr)
    add_loop bufs readable needed i idx (suc left) vr = do
      vqassert dbg (not (idx == chain_end))
      dp ← load vr.num vr.desc idx
      b ← get_elem? bufs i
      desc ← store vr.num vr.desc idx (record dp {
        addr = io.virt_to_phys b.buf;
        len = b.len % 2 ^ 32;
        flags = desc_flags i readable needed;
      })
      add_loop bufs readable needed (i + 1) dp.next left (record vr { desc = desc })

    -- `vq_ring_add_buffer` returns the descriptor behind the last one that it filled.
    pub vq_ring_add_buffer :
        Vring → (head_idx : ℕ) → List VirtqueueBuf → (readable writable : ℕ) → Option (ℕ × Vring)
    unfolding add_loop
    vq_ring_add_buffer vr head_idx bufs readable writable =
        add_loop bufs readable (readable + writable) 0 head_idx (readable + writable) vr

    -- The body of `virtqueue_add_buffer` behind its checks.
    pub enqueue : Virtqueue → List VirtqueueBuf → (readable writable cookie : ℕ) → Option Virtqueue
    unfolding vq_ring_add_buffer vq_ring_update_avail
    enqueue vq bufs readable writable cookie = do
      vqassert dbg (not (cookie == 0))
      let head_idx = vq.desc_head_idx
      assert_valid_idx dbg vq head_idx
      dxp ← load vq.descx_num vq.descx head_idx
      vqassert dbg (dxp.cookie == 0)
      descx ←
          store vq.descx_num vq.descx head_idx
            (record { cookie = cookie; ndescs = (readable + writable) % 2 ^ 16 })
      (idx, vr) ← vq_ring_add_buffer vq.vring head_idx bufs readable writable
      let vq = record vq {
        descx = descx;
        vring = vr;
        desc_head_idx = idx;
        free_cnt = sub16 vq.free_cnt (readable + writable);
      }
      (if vq.free_cnt == 0 then assert_chain_term dbg vq else assert_valid_idx dbg vq idx)
      vq_ring_update_avail vq head_idx

    -- `virtqueue_add_buffer`
    pub virtqueue_add_buffer :
        Virtqueue → List VirtqueueBuf → (readable writable cookie : ℕ) → Option (Status × Virtqueue)
    unfolding enqueue
    virtqueue_add_buffer vq bufs readable writable cookie =
        let status =
          param_chk dbg (vq.free_cnt == 0) vring_full
            (param_chk dbg (ltb (readable + writable) 1) invld_param success) in
        do
          vq ← busy dbg vq
          vq ← (if is_success status then enqueue vq bufs readable writable cookie else some vq)
          some (status, idle dbg vq)
