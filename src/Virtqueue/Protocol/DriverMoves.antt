-- ===== src/Virtqueue/Protocol/DriverMoves.antt =====
-- lib/virtio/virtqueue.c: `virtqueue_add_buffer` and `virtqueue_get_buffer` keep the invariant of two
-- cores at one ring, and succeed where it says that they can.
use openamp.Base.{
  All, All-append, ℕ, zero, suc, ◌+◌, ◌%◌, ◌≤◌, ◌<◌, ◌≡◌, ◌≢◌, ◌∙◌, refl, ap, sym, subst, Bool,
  some, List, [], ◌∷◌, ◌++◌, map, arith, length, length-append, count, count-append,
}
use native.Mathlib.Nat.{mod-eq_of_lt}
use openamp.Base.Array.{update}
use openamp.Vring.{UsedElem, add16}
use openamp.Virtqueue.{Virtqueue, VirtqueueBuf, ShmIo, success, chain_end, ring_index}
use openamp.Virtqueue.Driver.{Got, virtqueue_add_buffer, virtqueue_get_buffer}
use openamp.Virtqueue.Driver.Owned.{InFlight, IsDriver, size_bounds, avail_slot}
use openamp.Virtqueue.Driver.Add.{added, add_buffer-IsDriver}
use openamp.Virtqueue.Driver.Get.{returned, get_buffer-IsDriver}
use openamp.Virtqueue.Fifo.{window, window-push, index_wrap}
use openamp.Virtqueue.Protocol.{System, driver_moves}
use openamp.Virtqueue.Protocol.Invariant.{
  heads, available, used, IsShared, head-lt, room, heads-split, count-heads,
}

split_at :
    (n : ℕ) (l : List ℕ)
    → n ≤ length l
    → (xs : List ℕ) × (rest : List ℕ) × (l ≡ xs ++ rest) × (length xs ≡ n)
split_at zero l h = ([], l, refl, refl)
split_at (suc n) [] h = absurd (omega arith)
split_at (suc n) (x ∷ l) h =
    let (xs, rest, e, len) = split_at n l (omega arith) in (x ∷ xs, rest, ap (◌∷◌ x) e, ap suc len)

module _ (dbg : Bool) (io : ShmIo) {s : System} (v : IsShared s) where
  -- The slot of the available ring behind the waiting entries takes one more.
  published :
      (h : ℕ)
      → v.navail < s.driver.nentries
      → window
          (update s.driver.vring.avail_ring
            (ring_index s.driver.vring.avail_idx s.driver.nentries)
            h)
          s.driver.nentries
          s.device.available_idx
          (suc v.navail)
        ≡ available s v.navail ++ (h ∷ [])
  published h lt =
      let k = v.driver.log_size in
      let n = s.driver.nentries in
      subst
        (λ i.
          window (update s.driver.vring.avail_ring i h) n s.device.available_idx (suc v.navail)
          ≡ available s v.navail ++ (h ∷ []))
        (sym (avail_slot v.driver s.driver.vring.avail_idx).0)
        (window-push s.driver.vring.avail_ring n k s.device.available_idx s.driver.vring.avail_idx
          v.navail h v.driver.log_size_le v.driver.nentries_eq
          (ap (λ m. m % n) v.avail_eq
            ∙ index_wrap (s.device.available_idx + v.navail) k n v.driver.log_size_le
                v.driver.nentries_eq)
          lt)

  add-parts :
      (bufs : List VirtqueueBuf) (readable writable cookie x : ℕ) (xs rest : List ℕ)
      → v.free ≡ (x ∷ xs) ++ rest
      → suc (length xs) ≡ readable + writable
      → cookie ≢ 0
      → readable + writable ≤ length bufs
      → (vq : Virtqueue) × (virtqueue_add_buffer dbg io s.driver bufs readable writable cookie
          ≡ some (success, vq))
        × (v' : IsShared (driver_moves s vq)) × (v'.nused ≡ v.nused)
        × (v'.navail ≡ suc v.navail)
        × (available (driver_moves s vq) v'.navail
            ≡ available s v.navail ++ (s.driver.desc_head_idx ∷ []))
  add-parts bufs readable writable cookie x xs rest e len hc fits =
      let (d, idx, eq, inv, fl, head, keep) =
        add_buffer-IsDriver dbg io bufs readable writable cookie s.driver x xs rest v.busy
          (subst (λ f. IsDriver s.driver f v.busy) e v.driver) len fits hc in
      (
        added dbg io bufs readable writable cookie s.driver d idx,
        eq,
        record {
          free = rest;
          busy = (x ∷ xs) ∷ v.busy;
          navail = suc v.navail;
          nused = v.nused;
          driver = inv;
          coherent = refl;
          same_size = v.same_size;
          not_inuse = v.not_inuse;
          avail_word = v.avail_word;
          avail_eq = omega (arith, v.avail_eq);
          used_word = v.used_word;
          used_eq = v.used_eq;
          placed = λ i. ground (
            arith,
            v.placed i,
            head,
            ap (count i) (
                published s.driver.desc_head_idx
                  (omega (arith, room v, v.placed_length, ap length e))),
            count-append i (available s v.navail) (s.driver.desc_head_idx ∷ []),
          );
          placed_length = omega (arith, v.placed_length);
        },
        refl,
        refl,
        published s.driver.desc_head_idx (omega (arith, room v, v.placed_length, ap length e)),
      )

  -- An added request leaves the number of used buffers that wait, and is one more that is
  -- available.
  pub add-next :
      (bufs : List VirtqueueBuf) (readable writable cookie : ℕ)
      → cookie ≢ 0
      → 0 < readable + writable
      → readable + writable ≤ length bufs
      → readable + writable ≤ s.driver.free_cnt
      → (vq : Virtqueue) × (virtqueue_add_buffer dbg io s.driver bufs readable writable cookie
          ≡ some (success, vq))
        × (v' : IsShared (driver_moves s vq)) × (v'.nused ≡ v.nused)
        × (v'.navail ≡ suc v.navail)
        × (available (driver_moves s vq) v'.navail
            ≡ available s v.navail ++ (s.driver.desc_head_idx ∷ []))
  add-next bufs readable writable cookie hc pos fits few =
      let (all, rest, e, len) =
        split_at (readable + writable) v.free (omega (arith, v.driver.free_cnt_eq)) in
      by_first all rest e len
    where
      by_first :
          (all rest : List ℕ)
          → v.free ≡ all ++ rest
          → length all ≡ readable + writable
          → (vq : Virtqueue) × (virtqueue_add_buffer dbg io s.driver bufs readable writable cookie
              ≡ some (success, vq))
            × (v' : IsShared (driver_moves s vq)) × (v'.nused ≡ v.nused)
            × (v'.navail ≡ suc v.navail)
            × (available (driver_moves s vq) v'.navail
                ≡ available s v.navail ++ (s.driver.desc_head_idx ∷ []))
      by_first [] rest e len = absurd (omega arith)
      by_first (x ∷ xs) rest e len = add-parts bufs readable writable cookie x xs rest e len hc fits

  -- A request of one or more buffers, all of them in the list, with a cookie that is not NULL, that
  -- fits into the free descriptors succeeds and keeps the invariant. The used buffers that wait stay
  -- as many. The heads that wait in the available ring are then those of before and, behind them, the
  -- one of the new chain, which was the first free descriptor.
  pub add-IsShared :
      (bufs : List VirtqueueBuf) (readable writable cookie : ℕ)
      → cookie ≢ 0
      → 0 < readable + writable
      → readable + writable ≤ length bufs
      → readable + writable ≤ s.driver.free_cnt
      → (vq : Virtqueue) × (virtqueue_add_buffer dbg io s.driver bufs readable writable cookie
          ≡ some (success, vq))
        × (v' : IsShared (driver_moves s vq)) × (v'.nused ≡ v.nused)
        × (available (driver_moves s vq) v'.navail
            ≡ available s v.navail ++ (s.driver.desc_head_idx ∷ []))
  add-IsShared bufs readable writable cookie hc pos fits few =
      let (vq, eq, v', nu, _, order) = add-next bufs readable writable cookie hc pos fits few in
      (vq, eq, v', nu, order)

  -- Of the used buffers that wait, one is collected; its chain had a cookie and is free.
  pub collect-next :
      (m : ℕ)
      → v.nused ≡ suc m
      → (g : Got) × (vq : Virtqueue) × (virtqueue_get_buffer dbg s.driver ≡ some (some g, vq))
        × (v' : IsShared (driver_moves s vq)) × (v'.nused ≡ m)
        × (v'.navail ≡ v.navail)
        × (0 < vq.free_cnt)
        × (g.cookie ≢ 0)
        × (g.cookie
            ≡ (s.driver.descx
                (s.driver.vring.used_ring (s.driver.used_cons_idx % s.driver.nentries)).id).cookie)
  collect-next m more =
      let (pre, t, post, e) = heads-split h v.busy in_flight in
      let (l, eq, inv) =
        get_buffer-IsDriver dbg s.driver h t v.free pre post
          (subst (λ b. IsDriver s.driver v.free b) e v.driver)
          (omega (arith, more, sizes, v.used_eq, v.used_word, v.placed_length, room v))
          (mod-eq_of_lt (omega (arith, head-lt v h in_flight, sizes))) in
      let flying =
        ((All-append (InFlight s.driver.vring.desc s.driver.descx) pre ((h ∷ t) ∷ post)).1
          (subst (All (InFlight s.driver.vring.desc s.driver.descx)) e v.driver.in_flight)).1 in
      (
        record {
          cookie = (s.driver.descx h).cookie;
          len = (s.driver.vring.used_ring (s.driver.used_cons_idx % n)).len;
          idx = s.driver.used_cons_idx % n;
        },
        returned dbg s.driver h l,
        eq,
        record {
          free = (h ∷ t) ++ v.free;
          busy = pre ++ post;
          navail = v.navail;
          nused = m;
          driver = inv;
          coherent = refl;
          same_size = v.same_size;
          not_inuse = v.not_inuse;
          avail_word = v.avail_word;
          avail_eq = v.avail_eq;
          used_word = omega arith;
          used_eq = omega (arith, more, v.used_eq);
          placed = λ i. omega (
            arith,
            v.placed i,
            ap (count i) first,
            ap (λ b. count i (heads b)) e,
            count-heads i h t pre post,
          );
          placed_length = omega (
            arith,
            v.placed_length,
            more,
            ap length e,
            length-append {0} pre ((h ∷ t) ∷ post),
            length-append {0} pre post,
          );
        },
        refl,
        refl,
        omega (arith, inv.free_cnt_eq),
        flying.0.1,
        refl,
      )
    where
      n : ℕ
      n = s.driver.nentries

      h : ℕ
      h = (s.driver.vring.used_ring (s.driver.used_cons_idx % n)).id

      first :
          used s v.nused
          ≡ h
            ∷ map
                (λ (u : UsedElem). u.id)
                (window s.driver.vring.used_ring n (add16 s.driver.used_cons_idx 1) m)
      first = ap (used s) more

      sizes : (1 ≤ n) × (n ≤ chain_end)
      sizes = size_bounds v.driver

      in_flight : 0 < count h (heads v.busy)
      in_flight = ground (arith, v.placed h, ap (count h) first)

  pub collect-IsShared :
      (m : ℕ)
      → v.nused ≡ suc m
      → (g : Got) × (vq : Virtqueue) × (virtqueue_get_buffer dbg s.driver ≡ some (some g, vq))
        × IsShared (driver_moves s vq)
        × (g.cookie
            ≡ (s.driver.descx
                (s.driver.vring.used_ring (s.driver.used_cons_idx % s.driver.nentries)).id).cookie)
  collect-IsShared m more =
      let (g, vq, eq, v', _, _, _, _, cookie) = collect-next m more in (g, vq, eq, v', cookie)
