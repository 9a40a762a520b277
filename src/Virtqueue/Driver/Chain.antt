-- ===== src/Virtqueue/Driver/Chain.antt =====
-- lib/virtio/virtqueue.c: chains of descriptors, and what the loops of `vq_ring_add_buffer` and
-- `vq_ring_free_chain` do to them.
use openamp.Base.{
  ℕ, zero, suc, ◌+◌, ◌%◌, ◌^◌, ◌≤◌, ◌<◌, ◌≡◌, ◌≢◌, refl, Bool, false, some, List, [], ◌∷◌, ◌++◌,
  arith, ltb, ◌==◌, if◌then◌else◌, length, get_elem?, count, count-append, ap, ◌∙◌,
}
use openamp.Base.Array.{update}
use openamp.Vring.{Vring, VringDesc}
use openamp.Virtqueue.{VirtqueueBuf, ShmIo, chain_end}
use openamp.Virtqueue.Driver.{desc_flags, add_loop}

-- From `start` the `next` fields lead through the descriptors `xs` to `end`.
abbrev pub Chain : (desc : ℕ → VringDesc) (end start : ℕ) → List ℕ → Type 0
Chain desc end start [] = start ≡ end
Chain desc end start (x ∷ xs) = (start ≡ x) × Chain desc end (desc x).next xs

-- A chain depends on the `next` fields alone.
pub Chain-next :
    (d d' : ℕ → VringDesc) (end start : ℕ) (xs : List ℕ)
    → ((j : ℕ) → (d' j).next ≡ (d j).next)
    → Chain d end start xs
    → Chain d' end start xs
Chain-next d d' end start [] same c = c
Chain-next d d' end start (x ∷ xs) same (e, c) =
    (e, rw (same x) (Chain-next d d' end (d x).next xs same c))

-- Where a chain starts: at its end mark or at its first descriptor.
pub Chain-start :
    (d : ℕ → VringDesc) (end start : ℕ) (xs : List ℕ)
    → Chain d end start xs
    → ((length xs ≡ 0) → start ≡ end) × ((length xs ≢ 0) → 0 < count start xs)
Chain-start d end start [] c = (λ e. c, λ e. absurd (e refl))
Chain-start d end start (x ∷ xs) c = (λ e. absurd (omega arith), λ e. ground arith)

-- A write to a descriptor outside the chain leaves the chain.
pub Chain-update :
    (d : ℕ → VringDesc) (end start i : ℕ) (v : VringDesc) (xs : List ℕ)
    → count i xs ≡ 0
    → Chain d end start xs
    → Chain (update d i v) end start xs
Chain-update d end start i v [] out c = c
Chain-update d end start i v (x ∷ xs) out (e, c) =
    let ne : (x == i) ≡ false = ground arith in
    (e, rw ne (Chain-update d end (d x).next i v xs (ground arith) c))

-- Descriptor number `i` of a request, as it is handed to the other side.
abbrev pub IsFilled : ShmIo → List VirtqueueBuf → (readable needed i : ℕ) → VringDesc → Type 0
IsFilled io bufs readable needed i dp =
    (b : VirtqueueBuf) × (get_elem? bufs i ≡ some b)
    × (dp.addr ≡ io.virt_to_phys b.buf)
    × (dp.len ≡ b.len % 2 ^ 32)
    × (dp.flags ≡ desc_flags i readable needed)

-- The descriptors `xs` hold the buffers from number `i` on.
abbrev pub Filled :
    ShmIo → List VirtqueueBuf → (readable needed i : ℕ) → (ℕ → VringDesc) → List ℕ → Type 0
Filled io bufs readable needed i d [] = Unit
Filled io bufs readable needed i d (x ∷ xs) =
    IsFilled io bufs readable needed i (d x) × Filled io bufs readable needed (i + 1) d xs

pub get_elem?-some {ℓ} :
    {A : Type ℓ} (xs : List A) (i : ℕ) → i < length xs → (a : A) × (get_elem? xs i ≡ some a)
get_elem?-some [] i h = elim h [ ]
get_elem?-some (x ∷ xs) zero h = (x, refl)
get_elem?-some (x ∷ xs) (suc i) h = get_elem?-some xs i (omega arith)

module _ (dbg : Bool) (io : ShmIo) (bufs : List VirtqueueBuf) (readable needed : ℕ) where
  abbrev fill : (i : ℕ) → VirtqueueBuf → VringDesc → VringDesc
  fill i b dp = record dp {
    addr = io.virt_to_phys b.buf;
    len = b.len % 2 ^ 32;
    flags = desc_flags i readable needed;
  }

  add_loop-step :
      (i idx left : ℕ) (b : VirtqueueBuf) (vr : Vring)
      → idx < vr.num
      → vr.num ≤ chain_end
      → get_elem? bufs i ≡ some b
      → add_loop dbg io bufs readable needed i idx (suc left) vr
        ≡ add_loop dbg io bufs readable needed
            (i + 1)
            (vr.desc idx).next
            left
            (record vr { desc = update vr.desc idx (fill i b (vr.desc idx)) })
  unfolding add_loop
  add_loop-step i idx left b vr h small e = ground (arith, e)

  pub add_loop-Filled :
      (xs : List ℕ) (i idx : ℕ) (rest : List ℕ) (end : ℕ) (vr : Vring)
      → Chain vr.desc end idx (xs ++ rest)
      → ((j : ℕ) → count j (xs ++ rest) ≤ (if ltb j vr.num then 1 else 0))
      → vr.num ≤ chain_end
      → i + length xs ≤ length bufs
      → (d' : ℕ → VringDesc) × (idx' : ℕ) × (add_loop dbg io bufs readable needed i idx
            (length xs)
            vr
          ≡ some (idx', record vr { desc = d' }))
        × Chain d' end idx' rest
        × Filled io bufs readable needed i d' xs
        × ((j : ℕ) → (d' j).next ≡ (vr.desc j).next)
        × ((j : ℕ) → count j xs ≡ 0 → d' j ≡ vr.desc j)
  add_loop-Filled [] i idx rest end vr c own small fits =
      (vr.desc, idx, stop, c, tt, λ j. refl, λ j e. refl)
    where
      stop : add_loop dbg io bufs readable needed i idx 0 vr ≡ some (idx, vr)
      stop = unfold add_loop in refl
  add_loop-Filled (x ∷ xs) i idx rest end vr (e, c) own small fits =
      let (b, eb) = get_elem?-some bufs i (omega arith) in
      let (d', idx', eq, ch, fl, nx, keep) =
        add_loop-Filled xs (i + 1) (vr.desc idx).next rest end (vr1 b) (chain1 b) own1 small
          (omega arith) in
      let here : d' x ≡ fill i b (vr.desc idx) = keep x fresh ∙ written b in
      (
        d',
        idx',
        add_loop-step i idx (length xs) b vr inside small eb ∙ eq,
        ch,
        ((b, eb, ap (λ dp. dp.addr) here, ap (λ dp. dp.len) here, ap (λ dp. dp.flags) here), fl),
        λ j. nx j ∙ next1 b j,
        λ j out. keep j (ground arith) ∙ other b j (ground arith),
      )
    where
      inside : idx < vr.num
      inside = ground (arith, own x)

      vr1 : VirtqueueBuf → Vring
      vr1 b = record vr { desc = update vr.desc idx (fill i b (vr.desc idx)) }

      next1 : (b : VirtqueueBuf) (j : ℕ) → ((vr1 b).desc j).next ≡ (vr.desc j).next
      next1 b j = ground arith

      chain1 : (b : VirtqueueBuf) → Chain (vr1 b).desc end (vr.desc idx).next (xs ++ rest)
      chain1 b =
          Chain-next vr.desc (vr1 b).desc end (vr.desc idx).next (xs ++ rest) (next1 b) (rw e c)

      own1 : (j : ℕ) → count j (xs ++ rest) ≤ (if ltb j vr.num then 1 else 0)
      own1 j = ground (arith, own j)

      fresh : count x xs ≡ 0
      fresh = ground (arith, own x, count-append x xs rest)

      written : (b : VirtqueueBuf) → (vr1 b).desc x ≡ fill i b (vr.desc idx)
      written b = ground arith

      other : (b : VirtqueueBuf) (j : ℕ) → (j == x) ≡ false → (vr1 b).desc j ≡ vr.desc j
      other b j ne = ground arith
