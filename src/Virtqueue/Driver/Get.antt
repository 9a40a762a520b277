-- ===== src/Virtqueue/Driver/Get.antt =====
-- lib/virtio/virtqueue.c: `virtqueue_get_buffer` on a queue that keeps its invariant.
use openamp.Base.{
  ℕ, zero, suc, ◌+◌, ◌%◌, ◌^◌, ◌≤◌, ◌<◌, ◌≡◌, ◌≢◌, ◌∙◌, refl, ap, sym, Bool, true, false, none,
  some, List, [], ◌∷◌, ◌++◌, arith, bit_and, ◌==◌, ==_refl, length, length-append, length-concat,
  count, count-append, count-concat, concat, All, All-append,
}
use openamp.Base.Array.{update}
use openamp.Vring.{VringDesc, add16, sub16, desc_f_indirect}
use openamp.Virtqueue.{Virtqueue, chain_end, ring_index}
use openamp.Virtqueue.Driver.{free_walk, virtqueue_get_buffer}
use openamp.Virtqueue.Driver.Chain.{Chain, Chain-update, Chain-start}
use openamp.Virtqueue.Driver.Owned.{
  Links, InFlight, IsDriver, size_bounds, ring_index-mod, All-cookie-frame, All-InFlight-frame,
}

-- The last descriptor of a chain.
abbrev last : ℕ → List ℕ → ℕ
last x [] = x
last x (y ∷ ys) = last y ys

count-last : (x : ℕ) (xs : List ℕ) → 0 < count (last x xs) (x ∷ xs)
count-last x [] = ground arith
count-last x (y ∷ ys) = ground (arith, count-last y ys)

-- Linking the end of a handed-back chain to the free chain makes one free chain.
Links-Chain :
    (d : ℕ → VringDesc) (end head x : ℕ) (xs free : List ℕ)
    → Links d x xs
    → Chain d end head free
    → ((j : ℕ) → count j (x ∷ xs) + count j free ≤ 1)
    → Chain (update d (last x xs) (record (d (last x xs)) { next = head })) end x (x ∷ (xs ++ free))
Links-Chain d end head x [] free l c own = (
  refl,
  rw (==_refl x)
      (Chain-update d end head x (record (d x) { next = head }) free (ground (arith, own x)) c),
)
Links-Chain d end head x (y ∷ ys) free l c own =
    let ne : (x == last y ys) ≡ false = ground (arith, own x, count-last y ys) in
    (refl, rw (ne, l.2) (Links-Chain d end head y ys free l.3 c (λ j. ground (arith, own j))))

Links-direct :
    (d : ℕ → VringDesc) (x : ℕ) (xs : List ℕ)
    → Links d x xs
    → bit_and (d x).flags desc_f_indirect ≡ 0
Links-direct d x [] l = l.1
Links-direct d x (y ∷ ys) l = l.1

module _ (dbg : Bool) where
  -- The walk ends at the last descriptor, with no descriptor left to count.
  free_walk-last :
      (fuel : ℕ) (vq : Virtqueue) (x : ℕ) (xs : List ℕ)
      → Links vq.vring.desc x xs
      → ((j : ℕ) → 0 < count j (x ∷ xs) → j < vq.nentries)
      → vq.vring.num ≡ vq.nentries
      → length xs < 2 ^ 16
      → length xs < fuel
      → free_walk dbg fuel vq x (length xs) ≡ some (last x xs, 0)
  unfolding free_walk
  free_walk-last zero vq x xs l inside hn small fits = absurd (omega arith)
  free_walk-last (suc fuel) vq x [] l inside hn small fits = ground (arith, inside x)
  free_walk-last (suc fuel) vq x (y ∷ ys) l inside hn small fits =
      ground (
        arith,
        inside x,
        inside y,
        free_walk-last fuel vq y ys l.3 (λ j p. inside j (ground arith)),
      )

  -- The queue after the chain with head `h` and last descriptor `l` came back.
  abbrev pub returned : Virtqueue → (h l : ℕ) → Virtqueue
  returned vq h l = record vq {
    used_cons_idx = add16 vq.used_cons_idx 1;
    free_cnt = add16 vq.free_cnt (vq.descx h).ndescs;
    descx =
        update (update vq.descx h (record (vq.descx h) { ndescs = 0 })) h
          (record { cookie = 0; ndescs = 0 });
    vring = record vq.vring {
      desc = update vq.vring.desc l (record (vq.vring.desc l) { next = vq.desc_head_idx });
    };
    desc_head_idx = h;
    inuse = false;
  }

  get_buffer-eq :
      (vq : Virtqueue) (h l len : ℕ)
      → vq.used_cons_idx ≢ vq.vring.used_idx
      → vq.inuse ≡ false
      → ring_index vq.used_cons_idx vq.nentries < vq.nentries
      → (vq.vring.used_ring (ring_index vq.used_cons_idx vq.nentries)).id % 2 ^ 16 ≡ h
      → vq.vring.num ≡ vq.nentries
      → vq.descx_num ≡ vq.nentries
      → h < vq.nentries
      → l < vq.nentries
      → bit_and (vq.vring.desc h).flags desc_f_indirect ≡ 0
      → sub16 (vq.descx h).ndescs 1 ≡ len
      → ((vq.free_cnt ≡ 0) → vq.desc_head_idx ≡ chain_end)
      → ((vq' : Virtqueue)
          → vq'.vring ≡ vq.vring
          → vq'.nentries ≡ vq.nentries
          → free_walk dbg (vq.nentries + 1) vq' h len ≡ some (l, 0))
      → virtqueue_get_buffer dbg vq
        ≡ some (
          some (record {
            cookie = (vq.descx h).cookie;
            len = (vq.vring.used_ring (ring_index vq.used_cons_idx vq.nentries)).len;
            idx = ring_index vq.used_cons_idx vq.nentries;
          }),
          returned vq h l,
        )
  unfolding virtqueue_get_buffer
  get_buffer-eq vq h l len ne hi hr hh hn hd ih il ind nd he wk = ground (
    arith,
    wk (record vq { used_cons_idx = add16 vq.used_cons_idx 1; inuse = true }) refl refl,
    wk (record vq { used_cons_idx = add16 vq.used_cons_idx 1 }) refl refl,
  )

  -- While the other side has used entries to collect, and the next one names the head `h` of some
  -- chain `h ∷ t` in flight (chains may come back in any order), `virtqueue_get_buffer` returns the
  -- cookie that was given with the chain and the length that the other side reported, puts the chain
  -- back in front of the free chain, and keeps the invariant.
  pub get_buffer-IsDriver :
      (vq : Virtqueue) (h : ℕ) (t free : List ℕ) (pre post : List (List ℕ))
      → IsDriver vq free (pre ++ ((h ∷ t) ∷ post))
      → vq.used_cons_idx ≢ vq.vring.used_idx
      → (vq.vring.used_ring (vq.used_cons_idx % vq.nentries)).id % 2 ^ 16 ≡ h
      → (l : ℕ) × (virtqueue_get_buffer dbg vq
          ≡ some (
            some (record {
              cookie = (vq.descx h).cookie;
              len = (vq.vring.used_ring (vq.used_cons_idx % vq.nentries)).len;
              idx = vq.used_cons_idx % vq.nentries;
            }),
            returned vq h l,
          ))
        × IsDriver (returned vq h l) ((h ∷ t) ++ free) (pre ++ post)
  get_buffer-IsDriver vq h t free pre post v ne hh = (
    last h t,
    rw (← slot.0) (
        get_buffer-eq vq h (last h t) (length t) ne v.not_inuse (omega (arith, slot)) (rw slot.0 hh)
          v.num_eq v.descx_num_eq (in_c h (ground arith)) (in_c (last h t) (count-last h t))
          (Links-direct vq.vring.desc h t links) (ground (arith, mine.0, sizes, v.total, lengths))
          (λ e.
            (Chain-start vq.vring.desc chain_end vq.desc_head_idx free v.chain).0
              (omega (arith, v.free_cnt_eq)))
          (λ vq' e e'.
            free_walk-last (vq.nentries + 1) vq' h t (rw e links) (rw e' in_c)
              (ap (λ r. r.num) e ∙ v.num_eq ∙ sym e') (omega (arith, sizes, v.total, lengths))
              (omega (arith, v.total, lengths)))),
    record {
      log_size = v.log_size;
      log_size_le = v.log_size_le;
      nentries_eq = v.nentries_eq;
      num_eq = v.num_eq;
      descx_num_eq = v.descx_num_eq;
      not_inuse = refl;
      chain =
          Links-Chain vq.vring.desc chain_end vq.desc_head_idx h t free links v.chain
            (λ j. ground (arith, v.owns j, counts j));
      free_cnt_eq =
          omega (arith, v.free_cnt_eq, mine.0, v.total, sizes, lengths, length-append {0} t free);
      total = omega (arith, v.total, lengths, length-append {0} t free, length-concat pre post);
      owns =
          λ j. ground (arith, v.owns j, counts j, count-append j t free, count-concat j pre post);
      free_cookies = (
        ground arith,
        (All-append (λ i. ((returned vq h (last h t)).descx i).cookie ≡ 0) t free).0 (
          All-cookie-frame vq.descx _ t (λ j p. other j (ground (arith, v.owns j, counts j)))
              mine.3,
          All-cookie-frame vq.descx _ free (λ j p. other j (ground (arith, v.owns j, counts j)))
              v.free_cookies,
        ),
      );
      in_flight =
          All-InFlight-frame vq.vring.desc _ vq.descx _ (pre ++ post)
            (λ j p. same_desc j (ground (arith, away j p, count-last h t)))
            (λ j p. other j (ground (arith, away j p)))
            ((All-append (InFlight vq.vring.desc vq.descx) pre post).0 (parts.0, parts.1.1));
    },
  )
    where
      sizes : (1 ≤ vq.nentries) × (vq.nentries ≤ chain_end)
      sizes = size_bounds v

      slot :
          (ring_index vq.used_cons_idx vq.nentries ≡ vq.used_cons_idx % vq.nentries)
          × (vq.used_cons_idx % vq.nentries < vq.nentries)
      slot = ring_index-mod vq.used_cons_idx v.log_size vq.nentries v.log_size_le v.nentries_eq

      counts :
          (j : ℕ)
          → count j (concat (pre ++ ((h ∷ t) ∷ post)))
            ≡ count j (concat pre) + (count j (h ∷ t) + count j (concat post))
      counts j =
          omega (arith, count-concat j pre ((h ∷ t) ∷ post), count-append j (h ∷ t) (concat post))

      lengths :
          length (concat (pre ++ ((h ∷ t) ∷ post)))
          ≡ length (concat pre) + (suc (length t) + length (concat post))
      lengths = omega (arith, length-concat pre ((h ∷ t) ∷ post), length-append {0} t (concat post))

      in_c : (j : ℕ) → 0 < count j (h ∷ t) → j < vq.nentries
      in_c j p = ground (arith, v.owns j, counts j)

      parts :
          All (InFlight vq.vring.desc vq.descx) pre
          × All (InFlight vq.vring.desc vq.descx) ((h ∷ t) ∷ post)
      parts = (All-append (InFlight vq.vring.desc vq.descx) pre ((h ∷ t) ∷ post)).1 v.in_flight

      mine : InFlight vq.vring.desc vq.descx (h ∷ t)
      mine = parts.1.0

      links : Links vq.vring.desc h t
      links = mine.2

      other : (j : ℕ) → (j == h) ≡ false → (returned vq h (last h t)).descx j ≡ vq.descx j
      other j n = ground arith

      same_desc :
          (j : ℕ)
          → (j == last h t) ≡ false
          → (returned vq h (last h t)).vring.desc j ≡ vq.vring.desc j
      same_desc j n = ground arith

      away : (j : ℕ) → 0 < count j (concat (pre ++ post)) → count j (h ∷ t) ≡ 0
      away j p = ground (arith, v.owns j, counts j, count-concat j pre post)

  -- With nothing to collect, the queue stays as it is.
  pub get_buffer-none :
      (vq : Virtqueue)
      → vq.used_cons_idx ≡ vq.vring.used_idx
      → virtqueue_get_buffer dbg vq ≡ some (none, vq)
  unfolding virtqueue_get_buffer
  get_buffer-none vq e = ground arith
