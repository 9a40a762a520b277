-- ===== src/Rpmsg/Endpoint/Registry.antt =====
-- lib/rpmsg/rpmsg.c: the invariant of a device's endpoints and its address bitmap, kept by
-- registering under a free address and by `rpmsg_unregister_endpoint`.
use openamp.Base.{
  ℕ, ◌+◌, ◌-◌, ◌≤◌, ◌<◌, ◌≡◌, ◌≢◌, ◌⊎◌, inl, inr, ◌∙◌, ap, true, false, List, [], ◌∷◌, ◌++◌, arith,
  ◌==◌, if◌then◌else◌, count, count-append,
}
use native.Mathlib.Decide.{ℕ_discrete}
use openamp.Base.Array.{update}
use openamp.Rpmsg.{
  MetalBitmap, IsBitmap, RpmsgEndpoint, RpmsgDevice, addr_bmp_size, reserved_addresses,
}
use openamp.Rpmsg.Address.Laws.{release_bit}
use openamp.Rpmsg.Endpoint.{list_del, rpmsg_unregister_endpoint}

count-list_del :
    (p q : ℕ) (l : List ℕ) → count q (list_del p l) ≡ (if q == p then count q l - 1 else count q l)
count-list_del p q [] = ground arith
count-list_del p q (x ∷ l) = ground (arith, count-list_del p q l)

-- Each registered endpoint points back at the device; one with a dynamic address has its bit set,
-- each bit that is set belongs to a registered endpoint, and no two endpoints share a dynamic
-- address.
pub record IsRegistry {B : Type 0} (m : MetalBitmap B) (rdev : RpmsgDevice B) : Type 0 where
  pub nodup : (p : ℕ) → count p rdev.endpoints ≤ 1
  pub attached : (p : ℕ) → 0 < count p rdev.endpoints → (rdev.eps p).rdev ≡ true
  pub bits :
      (p : ℕ)
      → 0 < count p rdev.endpoints
      → reserved_addresses ≤ (rdev.eps p).addr
      → ((rdev.eps p).addr < reserved_addresses + addr_bmp_size)
        × (m.is_bit_set rdev.bitmap ((rdev.eps p).addr - reserved_addresses) ≡ true)
  pub owned :
      (i : ℕ)
      → i < addr_bmp_size
      → m.is_bit_set rdev.bitmap i ≡ true
      → (p : ℕ) × (0 < count p rdev.endpoints) × ((rdev.eps p).addr ≡ reserved_addresses + i)
  pub unique :
      (p q : ℕ)
      → 0 < count p rdev.endpoints
      → 0 < count q rdev.endpoints
      → (rdev.eps p).addr ≡ (rdev.eps q).addr
      → reserved_addresses ≤ (rdev.eps p).addr
      → p ≡ q

-- An address that an endpoint may take, and the bitmap with it marked: a dynamic one that was free,
-- or a reserved one, which the bitmap does not track.
abbrev pub Chosen : {B : Type 0} → MetalBitmap B → (bitmap : B) (a : ℕ) (bitmap' : B) → Type 0
Chosen m bitmap a bitmap' =
    ((i : ℕ) × (i < addr_bmp_size)
      × (a ≡ reserved_addresses + i)
      × (m.is_bit_set bitmap i ≡ false)
      × ((j : ℕ) → m.is_bit_set bitmap' j ≡ (if j == i then true else m.is_bit_set bitmap j)))
    ⊎ ((a < reserved_addresses) × (bitmap' ≡ bitmap))

module _ {B : Type 0} (m : MetalBitmap B) (rdev : RpmsgDevice B) (v : IsRegistry m rdev) where
  module _ (ept : ℕ) (e : RpmsgEndpoint) (bitmap' : B) (new : count ept rdev.endpoints ≡ 0)
      (back : e.rdev ≡ true) (ch : Chosen m rdev.bitmap e.addr bitmap') where
    abbrev joined : RpmsgDevice B
    joined = record rdev {
      bitmap = bitmap';
      eps = update rdev.eps ept e;
      endpoints = rdev.endpoints ++ (ept ∷ []);
    }

    member :
        (p : ℕ)
        → count p (rdev.endpoints ++ (ept ∷ [])) ≡ (if p == ept then 1 else count p rdev.endpoints)
    member p = ground (arith, count-append p rdev.endpoints (ept ∷ []), new)

    joined_bits :
        (p : ℕ)
        → 0 < count p (rdev.endpoints ++ (ept ∷ []))
        → reserved_addresses ≤ (joined.eps p).addr
        → ((joined.eps p).addr < reserved_addresses + addr_bmp_size)
          × (m.is_bit_set bitmap' ((joined.eps p).addr - reserved_addresses) ≡ true)
    joined_bits p h lo = elim ch [
      | inl (i, lt, ea, clear, upd) ↦ elim (ℕ_discrete p ept) [
        | yes same ↦ ground (arith, upd (e.addr - reserved_addresses))
        | no other ↦
            ground (arith, member p, v.bits p, upd ((rdev.eps p).addr - reserved_addresses))
      ]
      | inr (low, eb) ↦ ground (arith, member p, v.bits p)
    ]

    joined_owned :
        (i : ℕ)
        → i < addr_bmp_size
        → m.is_bit_set bitmap' i ≡ true
        → (p : ℕ) × (0 < count p (rdev.endpoints ++ (ept ∷ [])))
          × ((joined.eps p).addr ≡ reserved_addresses + i)
    joined_owned j lt set = elim ch [
      | inl (i, _, ea, clear, upd) ↦ elim (ℕ_discrete j i) [
        | yes same ↦ (ept, ground (arith, member ept), ground arith)
        | no other ↦ old (ground (arith, upd j))
      ]
      | inr (low, eb) ↦ old (ground arith)
    ]
      where
        old :
            m.is_bit_set rdev.bitmap j ≡ true
            → (p : ℕ) × (0 < count p (rdev.endpoints ++ (ept ∷ [])))
              × ((joined.eps p).addr ≡ reserved_addresses + j)
        old h =
            let (p, mem, ea) = v.owned j lt h in (p, ground (arith, member p), ground (arith, new))

    -- No endpoint that was there has the address of the new one.
    apart :
        (p : ℕ)
        → 0 < count p rdev.endpoints
        → (rdev.eps p).addr ≡ e.addr
        → reserved_addresses ≤ e.addr
        → ⊥
    apart p h ea lo = elim ch [
      | inl (i, lt, is, clear, upd) ↦
          let at : (rdev.eps p).addr - reserved_addresses ≡ i = omega arith in
          cc (ap (m.is_bit_set rdev.bitmap) at, (v.bits p h (omega arith)).1)
      | inr (low, eb) ↦ omega arith
    ]

    joined_unique :
        (p q : ℕ)
        → 0 < count p (rdev.endpoints ++ (ept ∷ []))
        → 0 < count q (rdev.endpoints ++ (ept ∷ []))
        → (joined.eps p).addr ≡ (joined.eps q).addr
        → reserved_addresses ≤ (joined.eps p).addr
        → p ≡ q
    joined_unique p q hp hq same lo =
        ground (arith, member p, member q, v.unique p q, apart p, apart q)

    pub register-IsRegistry : IsRegistry m joined
    register-IsRegistry = record {
      nodup = λ p. ground (arith, member p, v.nodup p);
      attached = λ p h. ground (arith, member p, v.attached p);
      bits = joined_bits;
      owned = joined_owned;
      unique = joined_unique;
    }

  module _ (law : IsBitmap m) (ept : ℕ) (mem : 0 < count ept rdev.endpoints) where
    left : RpmsgDevice B
    left = rpmsg_unregister_endpoint m rdev ept

    left_member :
        (p : ℕ) → count p left.endpoints ≡ (if p == ept then 0 else count p rdev.endpoints)
    unfolding left rpmsg_unregister_endpoint
    left_member p = ground (arith, count-list_del ept p rdev.endpoints, v.nodup p)

    left_bit :
        (j : ℕ)
        → j < addr_bmp_size
        → m.is_bit_set left.bitmap j ≡ (
            if (rdev.eps ept).addr == reserved_addresses + j
            then false
            else m.is_bit_set rdev.bitmap j)
    unfolding left rpmsg_unregister_endpoint
    left_bit j h =
        ground (arith, release_bit m law rdev.bitmap addr_bmp_size (rdev.eps ept).addr j h)

    left_addr : (p : ℕ) → (left.eps p).addr ≡ (rdev.eps p).addr
    unfolding left rpmsg_unregister_endpoint
    left_addr p = ground arith

    left_rdev : (p : ℕ) → p ≢ ept → (left.eps p).rdev ≡ (rdev.eps p).rdev
    unfolding left rpmsg_unregister_endpoint
    left_rdev p h = ground arith

    left_owned :
        (i : ℕ)
        → i < addr_bmp_size
        → m.is_bit_set left.bitmap i ≡ true
        → (p : ℕ) × (0 < count p left.endpoints) × ((left.eps p).addr ≡ reserved_addresses + i)
    left_owned i lt set =
        let (p, mem', ea) = v.owned i lt (ground (arith, left_bit i lt)) in
        (p, ground (arith, left_bit i lt, left_member p), left_addr p ∙ ea)

    left-IsRegistry : IsRegistry m left
    left-IsRegistry = record {
      nodup = λ p. ground (arith, left_member p, v.nodup p);
      attached = λ p h. ground (arith, left_member p, left_rdev p, v.attached p);
      bits = λ p h lo. ground (
        arith,
        left_member p,
        left_addr p,
        v.bits p,
        v.unique p ept,
        left_bit ((rdev.eps p).addr - reserved_addresses),
        left_bit ((left.eps p).addr - reserved_addresses),
      );
      owned = left_owned;
      unique = λ p q hp hq.
          ground (arith, left_member p, left_member q, left_addr p, left_addr q, v.unique p q);
    }

  -- Unregistering gives the address back.
  pub unregister-IsRegistry :
      (law : IsBitmap m) (ept : ℕ)
      → 0 < count ept rdev.endpoints
      → IsRegistry m (rpmsg_unregister_endpoint m rdev ept)
  unfolding left
  unregister-IsRegistry law ept mem = left-IsRegistry law ept mem

  -- The endpoint is gone and its bit alone is cleared.
  pub unregister_frees :
      (law : IsBitmap m) (ept : ℕ)
      → 0 < count ept rdev.endpoints
      → (count ept (rpmsg_unregister_endpoint m rdev ept).endpoints ≡ 0)
        × ((i : ℕ)
            → i < addr_bmp_size
            → m.is_bit_set (rpmsg_unregister_endpoint m rdev ept).bitmap i ≡ (
                if (rdev.eps ept).addr == reserved_addresses + i
                then false
                else m.is_bit_set rdev.bitmap i))
  unfolding left
  unregister_frees law ept mem = (ground (arith, left_member law ept mem ept), left_bit law ept mem)
