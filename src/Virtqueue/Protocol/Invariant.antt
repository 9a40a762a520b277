-- ===== src/Virtqueue/Protocol/Invariant.antt =====
-- lib/virtio/virtqueue.c: the invariant of two cores at one ring. Every chain in flight is in exactly
-- one place: waiting in the available ring, held by the device, or waiting in the used ring.
use openamp.Base.{
  ℕ, ◌+◌, ◌%◌, ◌^◌, ◌≤◌, ◌<◌, ◌≡◌, refl, ap, sym, false, List, [], ◌∷◌, ◌++◌, map, arith, ◌==◌,
  if◌then◌else◌, length, length-append, count, count-append, concat, All,
}
use native.Mathlib.Decide.{ℕ_discrete}
use openamp.Vring.{VringDesc, UsedElem}
use openamp.Virtqueue.{DescExtra}
use openamp.Virtqueue.Driver.Owned.{InFlight, IsDriver}
use openamp.Virtqueue.Fifo.{window}
use openamp.Virtqueue.Protocol.{System}

abbrev pub heads : List (List ℕ) → List ℕ
heads [] = []
heads ([] ∷ cs) = heads cs
heads ((h ∷ t) ∷ cs) = h ∷ heads cs

-- The entries of the available ring that the device has not taken, and those of the used ring that
-- the driver has not collected.
abbrev pub available : System → ℕ → List ℕ
available s n = window s.driver.vring.avail_ring s.driver.nentries s.device.available_idx n

abbrev pub used : System → ℕ → List ℕ
used s n =
    map (λ (u : UsedElem). u.id)
      (window s.driver.vring.used_ring s.driver.nentries s.driver.used_cons_idx n)

pub record IsShared (s : System) : Type 0 where
  pub free : List ℕ
  pub busy : List (List ℕ)
  pub navail : ℕ
  pub nused : ℕ
  pub driver : IsDriver s.driver free busy
  pub coherent : s.device.vring ≡ s.driver.vring
  pub same_size : s.device.nentries ≡ s.driver.nentries
  pub not_inuse : s.device.inuse ≡ false
  pub avail_word : s.device.available_idx < 2 ^ 16
  pub avail_eq : s.driver.vring.avail_idx ≡ (s.device.available_idx + navail) % 2 ^ 16
  pub used_word : s.driver.used_cons_idx < 2 ^ 16
  pub used_eq : s.driver.vring.used_idx ≡ (s.driver.used_cons_idx + nused) % 2 ^ 16
  pub placed :
      (i : ℕ)
      → count i (heads busy)
        ≡ count i (available s navail) + (count i s.held + count i (used s nused))
  pub placed_length : length busy ≡ navail + (length s.held + nused)

-- Each chain in flight has a descriptor.
pub length_busy :
    (d : ℕ → VringDesc) (e : ℕ → DescExtra) (busy : List (List ℕ))
    → All (InFlight d e) busy
    → length busy ≤ length (concat busy)
length_busy d e [] a = omega arith
length_busy d e ([] ∷ cs) a = absurd a.0
length_busy d e ((h ∷ t) ∷ cs) a =
    omega (arith, length_busy d e cs a.1, length-append {0} t (concat cs))

-- A head belongs to a chain in flight.
pub heads-split :
    (h : ℕ) (busy : List (List ℕ))
    → 0 < count h (heads busy)
    → (pre : List (List ℕ)) × (t : List ℕ) × (post : List (List ℕ)) × (busy
        ≡ pre ++ ((h ∷ t) ∷ post))
heads-split h [] p = absurd (omega arith)
heads-split h ([] ∷ cs) p =
    let (pre, t, post, e) = heads-split h cs p in ([] ∷ pre, t, post, ap (◌∷◌ []) e)
heads-split h ((x ∷ xs) ∷ cs) p = elim (ℕ_discrete h x) [
  | yes e ↦ ([], xs, cs, ap (λ y. (y ∷ xs) ∷ cs) (sym e))
  | no ne ↦
      let (pre, t, post, e) = heads-split h cs (ground arith) in
      ((x ∷ xs) ∷ pre, t, post, ap (◌∷◌ (x ∷ xs)) e)
]

pub count-heads :
    (a h : ℕ) (t : List ℕ) (pre post : List (List ℕ))
    → count a (heads (pre ++ ((h ∷ t) ∷ post)))
      ≡ (if a == h then 1 else 0) + count a (heads (pre ++ post))
count-heads a h t [] post = refl
count-heads a h t ([] ∷ pre) post = count-heads a h t pre post
count-heads a h t ((x ∷ xs) ∷ pre) post = omega (arith, count-heads a h t pre post)

count-heads-le : (a : ℕ) (busy : List (List ℕ)) → count a (heads busy) ≤ count a (concat busy)
count-heads-le a [] = omega arith
count-heads-le a ([] ∷ cs) = count-heads-le a cs
count-heads-le a ((x ∷ xs) ∷ cs) = omega (arith, count-heads-le a cs, count-append a xs (concat cs))

module _ {s : System} (v : IsShared s) where
  -- A head in flight is an index of the descriptor table.
  pub head-lt : (h : ℕ) → 0 < count h (heads v.busy) → h < s.driver.nentries
  head-lt h p = ground (arith, v.driver.owns h, count-heads-le h v.busy)

  -- The chains in flight and the free descriptors together do not exceed the ring.
  pub room : length v.busy + length v.free ≤ s.driver.nentries
  room = omega (
    arith,
    v.driver.total,
    length_busy s.driver.vring.desc s.driver.descx v.busy v.driver.in_flight,
  )
