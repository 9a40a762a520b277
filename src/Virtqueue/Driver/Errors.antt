-- ===== src/Virtqueue/Driver/Errors.antt =====
-- lib/virtio/virtqueue.c: what `virtqueue_add_buffer` and `virtqueue_create` do where they cannot
-- succeed, in a build with VQUEUE_DEBUG and in one without.
use openamp.Base.{
  ℕ, zero, suc, ◌+◌, ◌-◌, ◌%◌, ◌^◌, ◌≤◌, ◌<◌, ◌≡◌, ◌≢◌, Bool, true, false, none, some, List, [],
  ◌∷◌, arith, bit_and, if◌then◌else◌, Option-cases, inl, inr, get_elem?, length,
}
use openamp.Base.Array.{update}
use openamp.Vring.{Vring, VringDesc}
use openamp.Virtqueue.{
  Virtqueue, VirtqueueBuf, ShmIo, vring_full, vring_align, invld_param, master, chain_end,
}
use openamp.Virtqueue.Driver.{desc_flags, add_loop, virtqueue_add_buffer, virtqueue_create}
use openamp.Virtqueue.Driver.Chain.{Chain, Chain-next}
use openamp.Virtqueue.Driver.Owned.{IsDriver, size_bounds}

-- On a queue with no free descriptor, a build with VQUEUE_DEBUG answers ERROR_VRING_FULL and leaves
-- the queue as it is. A build without it has no such check: the access to the entry of
-- VQ_RING_DESC_CHAIN_END in `vq_descx` lies outside the array.
pub add_buffer_full :
    (dbg : Bool) (io : ShmIo) (bufs : List VirtqueueBuf) (readable writable cookie : ℕ)
    (vq : Virtqueue) (busy : List (List ℕ))
    → IsDriver vq [] busy
    → 0 < readable + writable
    → virtqueue_add_buffer dbg io vq bufs readable writable cookie
      ≡ (if dbg then some (vring_full, vq) else none)
unfolding virtqueue_add_buffer
add_buffer_full true io bufs readable writable cookie vq busy v h =
    ground (arith, v.free_cnt_eq, v.not_inuse)
add_buffer_full false io bufs readable writable cookie vq busy v h =
    ground (arith, v.chain, v.descx_num_eq, size_bounds v)

module _ (dbg : Bool) (io : ShmIo) (bufs : List VirtqueueBuf) (readable needed : ℕ) where
  -- A request that is longer than the free chain runs past its end.
  add_loop-short :
      (left i idx : ℕ) (xs : List ℕ) (vr : Vring)
      → Chain vr.desc chain_end idx xs
      → length xs < left
      → vr.num ≤ chain_end
      → add_loop dbg io bufs readable needed i idx left vr ≡ none
  unfolding add_loop
  add_loop-short zero i idx xs vr c h small = absurd (omega arith)
  add_loop-short (suc left) i idx [] vr c h small = ground arith
  add_loop-short (suc left) i idx (x ∷ xs) vr (e, c) h small =
      elim (Option-cases (get_elem? bufs i)) [
        | inl absent ↦ ground (arith, absent)
        | inr (b, present) ↦ ground (
          arith,
          present,
          add_loop-short left (i + 1) (vr.desc idx).next xs (record vr { desc = filled b })
              (chain b) (omega arith) small,
        )
      ]
    where
      filled : VirtqueueBuf → ℕ → VringDesc
      filled b = update vr.desc idx (record (vr.desc idx) {
        addr = io.virt_to_phys b.buf;
        len = b.len % 2 ^ 32;
        flags = desc_flags i readable needed;
      })

      chain : (b : VirtqueueBuf) → Chain (filled b) chain_end (vr.desc idx).next xs
      chain b =
          Chain-next vr.desc (filled b) chain_end (vr.desc idx).next xs (λ j. ground arith) (rw e c)

-- A request for more descriptors than the free chain has, on a queue that is not full, is refused
-- with no status in either build: the loop of `vq_ring_add_buffer` runs past the end of the chain
-- (an access outside the descriptor table, or the failed assertion before it).
pub add_buffer_short :
    (dbg : Bool) (io : ShmIo) (bufs : List VirtqueueBuf) (readable writable cookie : ℕ)
    (vq : Virtqueue) (x : ℕ) (xs : List ℕ) (busy : List (List ℕ))
    → IsDriver vq (x ∷ xs) busy
    → suc (length xs) < readable + writable
    → virtqueue_add_buffer dbg io vq bufs readable writable cookie ≡ none
unfolding virtqueue_add_buffer
add_buffer_short dbg io bufs readable writable cookie vq x xs busy v h =
    let sizes = size_bounds v in
    ground (
      arith,
      v.free_cnt_eq,
      v.not_inuse,
      add_loop-short dbg io bufs readable (readable + writable) (readable + writable) 0
          vq.desc_head_idx (x ∷ xs) vq.vring v.chain h (omega (arith, v.num_eq)),
    )

-- `virtqueue_create` with VQUEUE_DEBUG refuses a size of 0, and one whose bits overlap those of the
-- number below (no power of two); the queue is left as it is.
pub create_checks :
    (features id num : ℕ) (mem : Vring) (callback notify : Bool) (vq : Virtqueue)
    → num ≢ 0
    → bit_and num ((num + 2 ^ 32 - 1) % 2 ^ 32) ≢ 0
    → (virtqueue_create true master features id 0 mem callback notify vq ≡ some (invld_param, vq))
      × (virtqueue_create true master features id num mem callback notify vq
          ≡ some (vring_align, vq))
unfolding virtqueue_create
create_checks features id num mem callback notify vq h k = (ground arith, ground arith)
