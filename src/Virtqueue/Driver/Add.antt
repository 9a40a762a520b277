-- ===== src/Virtqueue/Driver/Add.antt =====
-- lib/virtio/virtqueue.c: `virtqueue_add_buffer` on a queue that keeps its invariant.
use openamp.Base.{
  ℕ, suc, ◌+◌, ◌%◌, ◌^◌, ◌≤◌, ◌<◌, ◌≡◌, ◌≢◌, refl, subst, Bool, false, some, List, ◌∷◌, ◌++◌, arith,
  ◌==◌, length, length-append, count, count-append, concat, All, All-append,
}
use openamp.Base.Array.{update}
use openamp.Vring.{VringDesc, add16, sub16}
use openamp.Virtqueue.{Virtqueue, VirtqueueBuf, ShmIo, success, chain_end, ring_index}
use openamp.Virtqueue.Driver.{add_loop, virtqueue_add_buffer}
use openamp.Virtqueue.Driver.Chain.{Chain-next, Chain-start, Filled, add_loop-Filled}
use openamp.Virtqueue.Driver.Owned.{
  IsDriver, size_bounds, avail_slot, Filled-Links, All-cookie-frame, All-InFlight-frame,
}

module _ (dbg : Bool) (io : ShmIo) (bufs : List VirtqueueBuf) (readable writable cookie : ℕ) where
  -- The queue after a request that filled the table `d` and left `idx` at the head.
  abbrev pub added : Virtqueue → (d : ℕ → VringDesc) → (idx : ℕ) → Virtqueue
  added vq d idx = record vq {
    descx =
        update vq.descx vq.desc_head_idx
          (record { cookie = cookie; ndescs = (readable + writable) % 2 ^ 16 });
    vring = record vq.vring {
      desc = d;
      avail_ring =
          update vq.vring.avail_ring (ring_index vq.vring.avail_idx vq.nentries) vq.desc_head_idx;
      avail_idx = add16 vq.vring.avail_idx 1;
    };
    desc_head_idx = idx;
    free_cnt = sub16 vq.free_cnt (readable + writable);
    queued_cnt = add16 vq.queued_cnt 1;
    inuse = false;
  }

  add_buffer-eq :
      (vq : Virtqueue) (d : ℕ → VringDesc) (idx : ℕ)
      → 0 < readable + writable
      → vq.free_cnt ≢ 0
      → vq.inuse ≡ false
      → cookie ≢ 0
      → vq.desc_head_idx < vq.nentries
      → vq.descx_num ≡ vq.nentries
      → vq.vring.num ≡ vq.nentries
      → (vq.descx vq.desc_head_idx).cookie ≡ 0
      → ring_index vq.vring.avail_idx vq.nentries < vq.nentries
      → add_loop dbg io bufs readable
          (readable + writable)
          0
          vq.desc_head_idx
          (readable + writable)
          vq.vring
        ≡ some (idx, record vq.vring { desc = d })
      → ((sub16 vq.free_cnt (readable + writable) ≡ 0) → idx ≡ chain_end)
      → ((sub16 vq.free_cnt (readable + writable) ≢ 0) → idx < vq.nentries)
      → virtqueue_add_buffer dbg io vq bufs readable writable cookie
        ≡ some (success, added vq d idx)
  unfolding virtqueue_add_buffer
  add_buffer-eq vq d idx pos hf hi hc hh hd hn hk ha el he hs = ground arith

  -- A request of one or more buffers that fit into the free descriptors `(x ∷ xs) ++ rest`, with
  -- a cookie, succeeds: `virtqueue_add_buffer` hands out exactly the first descriptors `x ∷ xs` of
  -- the free chain, filled with the buffers in order, publishes the head `x` in the next slot of
  -- the available ring, and keeps the invariant.
  pub add_buffer-IsDriver :
      (vq : Virtqueue) (x : ℕ) (xs rest : List ℕ) (busy : List (List ℕ))
      → IsDriver vq ((x ∷ xs) ++ rest) busy
      → suc (length xs) ≡ readable + writable
      → readable + writable ≤ length bufs
      → cookie ≢ 0
      → (d : ℕ → VringDesc) × (idx : ℕ) × (virtqueue_add_buffer dbg io vq bufs readable writable
            cookie
          ≡ some (success, added vq d idx))
        × IsDriver (added vq d idx) rest ((x ∷ xs) ∷ busy)
        × Filled io bufs readable (readable + writable) 0 d (x ∷ xs)
        × (vq.desc_head_idx ≡ x)
        × ((j : ℕ) → count j (x ∷ xs) ≡ 0 → d j ≡ vq.vring.desc j)
  add_buffer-IsDriver vq x xs rest busy v len fits hc =
      let sizes = size_bounds v in
      let slot = avail_slot v vq.vring.avail_idx in
      let (d, idx, el, ch, fl, nx, keep) =
        add_loop-Filled dbg io bufs readable (readable + writable) (x ∷ xs) 0 vq.desc_head_idx rest
          chain_end vq.vring v.chain (λ j. ground (arith, v.owns j, v.num_eq))
          (omega (arith, v.num_eq)) (omega arith) in
      let start = Chain-start d chain_end idx rest ch in
      let left : sub16 vq.free_cnt (readable + writable) ≡ length rest =
        omega (arith, v.free_cnt_eq, v.total, length-append {0} xs rest) in
      let head : vq.desc_head_idx ≡ x = v.chain.0 in
      let at_head : vq.desc_head_idx < vq.nentries = ground (arith, v.owns x) in
      (
        d,
        idx,
        add_buffer-eq vq d idx (omega arith) (omega (arith, v.free_cnt_eq)) v.not_inuse hc at_head
            v.descx_num_eq v.num_eq (rw head v.free_cookies.0) (omega arith)
            (subst
              (λ n.
                add_loop dbg io bufs readable (readable + writable) 0 vq.desc_head_idx n vq.vring
                ≡ some (idx, record vq.vring { desc = d }))
              len el)
            (λ e. start.0 (omega arith))
            (λ e.
              ground (arith, start.1 (omega arith), v.owns idx, count-append idx (x ∷ xs) rest)),
        record {
          log_size = v.log_size;
          log_size_le = v.log_size_le;
          nentries_eq = v.nentries_eq;
          num_eq = v.num_eq;
          descx_num_eq = v.descx_num_eq;
          not_inuse = refl;
          chain = ch;
          free_cnt_eq = left;
          total =
              omega (arith, v.total, length-append {0} xs rest, length-append {0} xs (concat busy));
          owns = λ j.
              ground (arith, v.owns j, count-append j xs rest, count-append j xs (concat busy));
          free_cookies = All-cookie-frame vq.descx _ rest (λ j p. other j (out_rest j p)) cookies.1;
          in_flight = (
            (
              ground (arith, v.total, size_bounds v, length-append xs rest),
              ground arith,
              Filled-Links io bufs readable (readable + writable) 0 d chain_end x xs rest fl
                  (Chain-next vq.vring.desc d chain_end x (x ∷ (xs ++ rest)) nx (refl, v.chain.1))
                  (omega arith),
              All-cookie-frame vq.descx _ xs (λ j p. other j (out_xs j p)) cookies.0,
            ),
            All-InFlight-frame vq.vring.desc d vq.descx _ busy (λ j p. keep j (out_busy j p))
                (λ j p. other j (ground (arith, out_busy j p))) v.in_flight,
          );
        },
        fl,
        head,
        keep,
      )
    where
      cookies : All (λ i. (vq.descx i).cookie ≡ 0) xs × All (λ i. (vq.descx i).cookie ≡ 0) rest
      cookies = (All-append (λ i. (vq.descx i).cookie ≡ 0) xs rest).1 v.free_cookies.1

      other :
          (j : ℕ)
          → (j == x) ≡ false
          → update vq.descx vq.desc_head_idx
              (record { cookie = cookie; ndescs = (readable + writable) % 2 ^ 16 })
              j
            ≡ vq.descx j
      other j ne = ground (arith, v.chain.0)

      out_rest : (j : ℕ) → 0 < count j rest → (j == x) ≡ false
      out_rest j p = ground (arith, v.owns j, count-append j xs rest)

      out_xs : (j : ℕ) → 0 < count j xs → (j == x) ≡ false
      out_xs j p = ground (arith, v.owns j, count-append j xs rest)

      out_busy : (j : ℕ) → 0 < count j (concat busy) → count j (x ∷ xs) ≡ 0
      out_busy j p = ground (arith, v.owns j, count-append j xs rest)
