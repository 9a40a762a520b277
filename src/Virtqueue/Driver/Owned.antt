-- ===== src/Virtqueue/Driver/Owned.antt =====
-- lib/virtio/virtqueue.c: the invariant of the side that owns the descriptors. Each descriptor is
-- either in the free chain or in exactly one chain that the other side holds.
use openamp.Base.{
  ℕ, suc, ◌+◌, ◌-◌, ◌%◌, ◌^◌, ◌≤◌, ◌<◌, ◌≡◌, ◌≢◌, ◌∙◌, refl, Bool, true, false, List, [], ◌∷◌, ◌++◌,
  arith, bit_and, bit_or, ltb, leb, if◌then◌else◌, length, count, count-append, concat, All, ap,
  sym,
}
use openamp.Base.Bits.{bit_and-mask}
use native.Mathlib.Nat.{one-le-pow, pow-le-pow_right, mod-lt}
use openamp.Vring.{VringDesc, desc_f_next, desc_f_indirect}
use openamp.Virtqueue.{Virtqueue, VirtqueueBuf, ShmIo, DescExtra, chain_end, ring_index}
use openamp.Virtqueue.Driver.{desc_flags}
use openamp.Virtqueue.Driver.Chain.{Chain, Filled}

-- From `x` on, the descriptors marked NEXT lead through `xs`, and the last of them is not marked.
abbrev pub Links : (ℕ → VringDesc) → ℕ → List ℕ → Type 0
Links d x [] = (bit_and (d x).flags desc_f_next ≡ 0) × (bit_and (d x).flags desc_f_indirect ≡ 0)
Links d x (y ∷ ys) =
    (bit_and (d x).flags desc_f_next ≡ 1)
    × (bit_and (d x).flags desc_f_indirect ≡ 0)
    × ((d x).next ≡ y)
    × Links d y ys

-- A chain that was handed to the other side: its head has the cookie and the length.
abbrev pub InFlight : (ℕ → VringDesc) → (ℕ → DescExtra) → List ℕ → Type 0
InFlight d e [] = ⊥
InFlight d e (h ∷ t) =
    ((e h).ndescs ≡ suc (length t))
    × ((e h).cookie ≢ 0)
    × Links d h t
    × All (λ i. (e i).cookie ≡ 0) t

-- `free` is the free chain in order, `busy` are the chains in flight.
pub record IsDriver (vq : Virtqueue) (free : List ℕ) (busy : List (List ℕ)) : Type 0 where
  pub log_size : ℕ
  pub log_size_le : log_size ≤ 15
  pub nentries_eq : vq.nentries ≡ 2 ^ log_size
  pub num_eq : vq.vring.num ≡ vq.nentries
  pub descx_num_eq : vq.descx_num ≡ vq.nentries
  pub not_inuse : vq.inuse ≡ false
  pub chain : Chain vq.vring.desc chain_end vq.desc_head_idx free
  pub free_cnt_eq : vq.free_cnt ≡ length free
  pub total : length free + length (concat busy) ≡ vq.nentries
  pub owns : (i : ℕ) → count i free + count i (concat busy) ≡ (if ltb i vq.nentries then 1 else 0)
  pub free_cookies : All (λ i. (vq.descx i).cookie ≡ 0) free
  pub in_flight : All (InFlight vq.vring.desc vq.descx) busy

pub pow-le : (k : ℕ) → k ≤ 15 → (1 ≤ 2 ^ k) × (2 ^ k ≤ 2 ^ 15)
pow-le k h = (one-le-pow k 2 (omega arith), pow-le-pow_right {n = 2} (omega arith) h)

-- An index masked by the size of the ring is the index modulo that size.
pub ring_index-mod :
    (idx k n : ℕ) → k ≤ 15 → n ≡ 2 ^ k → (ring_index idx n ≡ idx % n) × (idx % n < n)
ring_index-mod idx k n h e =
    let bounds = pow-le k h in
    let mask : (n + 2 ^ 32 - 1) % 2 ^ 32 ≡ 2 ^ k - 1 = omega arith in
    (
      ap (bit_and idx) mask ∙ bit_and-mask k idx ∙ ap (λ m. idx % m) (sym e),
      mod-lt idx (omega arith),
    )

module _ {vq : Virtqueue} {free : List ℕ} {busy : List (List ℕ)} (v : IsDriver vq free busy) where
  pub size_bounds : (1 ≤ vq.nentries) × (vq.nentries ≤ chain_end)
  size_bounds = let b = pow-le v.log_size v.log_size_le in omega arith

  pub avail_slot :
      (idx : ℕ)
      → (ring_index idx vq.nentries ≡ idx % vq.nentries) × (idx % vq.nentries < vq.nentries)
  avail_slot idx = ring_index-mod idx v.log_size vq.nentries v.log_size_le v.nentries_eq

-- The bits that `vq_ring_add_buffer` sets.
flag_bits :
    (b c : Bool)
    → let f = bit_or (if b then 1 else 0) (if c then 2 else 0) in
      (bit_and f desc_f_next ≡ (if b then 1 else 0)) × (bit_and f desc_f_indirect ≡ 0)
flag_bits false false = (refl, refl)
flag_bits false true = (refl, refl)
flag_bits true false = (refl, refl)
flag_bits true true = (refl, refl)

desc_flags-bits :
    (f i readable needed : ℕ)
    → f ≡ desc_flags i readable needed
    → (bit_and f desc_f_next ≡ (if ltb i (needed - 1) then 1 else 0))
      × (bit_and f desc_f_indirect ≡ 0)
desc_flags-bits f i readable needed e = rw e (flag_bits (ltb i (needed - 1)) (leb readable i))

-- What `vq_ring_add_buffer` fills is a linked chain.
pub Filled-Links :
    (io : ShmIo) (bufs : List VirtqueueBuf) (readable needed i : ℕ) (d : ℕ → VringDesc) (end x : ℕ)
    (xs rest : List ℕ)
    → Filled io bufs readable needed i d (x ∷ xs)
    → Chain d end x (x ∷ (xs ++ rest))
    → i + suc (length xs) ≡ needed
    → Links d x xs
Filled-Links io bufs readable needed i d end x [] rest (f, _) c e =
    let bits = desc_flags-bits (d x).flags i readable needed f.4 in ground arith
Filled-Links io bufs readable needed i d end x (y ∷ ys) rest (f, fs) (_, (eq, c)) e =
    let bits = desc_flags-bits (d x).flags i readable needed f.4 in
    (
      ground arith,
      bits.1,
      eq,
      Filled-Links io bufs readable needed (i + 1) d end y ys rest fs (refl, c) (omega arith),
    )

-- A chain in flight is not touched by writes elsewhere.
Links-frame :
    (d d' : ℕ → VringDesc) (x : ℕ) (xs : List ℕ)
    → ((j : ℕ) → 0 < count j (x ∷ xs) → d' j ≡ d j)
    → Links d x xs
    → Links d' x xs
Links-frame d d' x [] same l = let e : d' x ≡ d x = same x (ground arith) in rw e l
Links-frame d d' x (y ∷ ys) same l =
    let e : d' x ≡ d x = same x (ground arith) in
    (rw e l.0, rw e l.1, rw e l.2, Links-frame d d' y ys (λ j h. same j (ground arith)) l.3)

pub All-cookie-frame :
    (e e' : ℕ → DescExtra) (xs : List ℕ)
    → ((j : ℕ) → 0 < count j xs → e' j ≡ e j)
    → All (λ i. (e i).cookie ≡ 0) xs
    → All (λ i. (e' i).cookie ≡ 0) xs
All-cookie-frame e e' [] same a = tt
All-cookie-frame e e' (x ∷ xs) same a =
    let q : e' x ≡ e x = same x (ground arith) in
    (rw q a.0, All-cookie-frame e e' xs (λ j h. same j (ground arith)) a.1)

InFlight-frame :
    (d d' : ℕ → VringDesc) (e e' : ℕ → DescExtra) (c : List ℕ)
    → ((j : ℕ) → 0 < count j c → d' j ≡ d j)
    → ((j : ℕ) → 0 < count j c → e' j ≡ e j)
    → InFlight d e c
    → InFlight d' e' c
InFlight-frame d d' e e' [] same same' f = f
InFlight-frame d d' e e' (h ∷ t) same same' f =
    let q : e' h ≡ e h = same' h (ground arith) in
    (
      rw q f.0,
      rw q f.1,
      Links-frame d d' h t same f.2,
      All-cookie-frame e e' t (λ j p. same' j (ground arith)) f.3,
    )

pub All-InFlight-frame :
    (d d' : ℕ → VringDesc) (e e' : ℕ → DescExtra) (busy : List (List ℕ))
    → ((j : ℕ) → 0 < count j (concat busy) → d' j ≡ d j)
    → ((j : ℕ) → 0 < count j (concat busy) → e' j ≡ e j)
    → All (InFlight d e) busy
    → All (InFlight d' e') busy
All-InFlight-frame d d' e e' [] same same' a = tt
All-InFlight-frame d d' e e' (c ∷ cs) same same' a = (
  InFlight-frame d d' e e' c (λ j p. same j (ground (arith, count-append j c (concat cs))))
      (λ j p. same' j (ground (arith, count-append j c (concat cs)))) a.0,
  All-InFlight-frame d d' e e' cs (λ j p. same j (ground (arith, count-append j c (concat cs))))
      (λ j p. same' j (ground (arith, count-append j c (concat cs)))) a.1,
)
