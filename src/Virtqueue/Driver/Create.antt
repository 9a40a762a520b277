-- ===== src/Virtqueue/Driver/Create.antt =====
-- lib/virtio/virtqueue.c: `virtqueue_create` on the master.
use openamp.Base.{
  ℕ, zero, suc, ◌+◌, ◌-◌, ◌%◌, ◌^◌, ◌≤◌, ◌<◌, ◌≡◌, refl, subst, Bool, false, some, List, [], ◌∷◌,
  arith, ltb, if◌then◌else◌, length, count, All,
}
use native.Mathlib.Nat.{mod_self}
use openamp.Base.Array.{update}
use openamp.Vring.{Vring, VringDesc}
use openamp.Virtqueue.{Virtqueue, DescExtra, success, master, chain_end}
use openamp.Virtqueue.Driver.{init_loop, virtqueue_create}
use openamp.Virtqueue.Driver.Chain.{Chain}
use openamp.Virtqueue.Driver.Owned.{IsDriver, ring_index-mod, pow-le}

-- The numbers from `i` on, `n` of them.
abbrev pub upto : (i n : ℕ) → List ℕ
upto i zero = []
upto i (suc n) = i ∷ upto (i + 1) n

pub length-upto : (i n : ℕ) → length (upto i n) ≡ n
length-upto i zero = refl
length-upto i (suc n) = omega (arith, length-upto (i + 1) n)

pub count-upto :
    (a i n : ℕ) → count a (upto i n) ≡ (if ltb a i then 0 else (if ltb a (i + n) then 1 else 0))
count-upto a i zero = ground arith
count-upto a i (suc n) = ground (arith, count-upto a (i + 1) n)

init_loop-Chain :
    (num left i : ℕ) (desc : ℕ → VringDesc)
    → i + left < num
    → num ≤ chain_end
    → (d : ℕ → VringDesc) × (init_loop num left i desc ≡ some d)
      × Chain d chain_end i (upto i (suc left))
      × ((j : ℕ) → j < i → d j ≡ desc j)
unfolding init_loop
init_loop-Chain num zero i desc h small = (
  update desc i (record (desc i) { next = chain_end }),
  ground arith,
  (refl, ground arith),
  λ j p. ground arith,
)
init_loop-Chain num (suc left) i desc h small =
    let desc' = update desc i (record (desc i) { next = (i + 1) % 2 ^ 16 }) in
    let (d, eq, ch, keep) = init_loop-Chain num left (i + 1) desc' (omega arith) small in
    (
      d,
      ground (arith, eq),
      (refl, (ground (arith, keep i (omega arith)), ch.1)),
      λ j p. ground (arith, keep j (omega arith)),
    )

All-zeroed :
    (e : ℕ → DescExtra) (xs : List ℕ)
    → ((j : ℕ) → (e j).cookie ≡ 0)
    → All (λ i. (e i).cookie ≡ 0) xs
All-zeroed e [] h = tt
All-zeroed e (x ∷ xs) h = (h x, All-zeroed e xs h)

-- For a ring of a power of two of at most 2 ^ 15 descriptors, and a `vq` that `virtqueue_allocate`
-- zeroed with as many extra entries, `virtqueue_create` on the master succeeds in every build, and
-- the new queue has all its descriptors in the free chain, in order, and none in flight.
pub create-IsDriver :
    (dbg : Bool) (features id k : ℕ) (mem : Vring) (callback notify : Bool) (vq : Virtqueue)
    → k ≤ 15
    → vq.inuse ≡ false
    → vq.desc_head_idx ≡ 0
    → vq.descx_num ≡ 2 ^ k
    → ((j : ℕ) → (vq.descx j).cookie ≡ 0)
    → (vq' : Virtqueue) × (virtqueue_create dbg master features id (2 ^ k) mem callback notify vq
        ≡ some (success, vq'))
      × IsDriver vq' (upto 0 (2 ^ k)) []
      × (vq'.nentries ≡ 2 ^ k)
unfolding virtqueue_create
create-IsDriver dbg features id k mem callback notify vq hk hi h0 hd hz =
    let sizes = pow-le k hk in
    let slot = ring_index-mod (2 ^ k) k (2 ^ k) hk refl in
    let (d, eq, ch, keep) =
      init_loop-Chain (2 ^ k) (2 ^ k - 1) 0 mem.desc (omega arith) (omega arith) in
    (
      record vq {
        role = master;
        features = features;
        queue_index = id;
        nentries = 2 ^ k;
        free_cnt = 2 ^ k;
        callback = callback;
        notify = notify;
        vring = record mem { num = 2 ^ k; desc = d };
      },
      ground (arith, eq, slot.0, mod_self (2 ^ k)),
      record {
        log_size = k;
        log_size_le = hk;
        nentries_eq = refl;
        num_eq = refl;
        descx_num_eq = hd;
        not_inuse = hi;
        chain = rw h0 (
            subst (λ n. Chain d chain_end 0 (upto 0 n)) {x = suc (2 ^ k - 1)} {y = 2 ^ k}
              (omega arith) ch);
        free_cnt_eq = omega (arith, length-upto 0 (2 ^ k));
        total = omega (arith, length-upto 0 (2 ^ k));
        owns = λ j. ground (arith, count-upto j 0 (2 ^ k));
        free_cookies = All-zeroed vq.descx (upto 0 (2 ^ k)) hz;
        in_flight = tt;
      },
      refl,
    )
