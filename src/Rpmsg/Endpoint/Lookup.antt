-- ===== src/Rpmsg/Endpoint/Lookup.antt =====
-- lib/rpmsg/rpmsg.c: `rpmsg_get_endpoint` and `rpmsg_get_ept_from_addr` find the endpoint that an
-- address belongs to.
use openamp.Base.{
  ℕ, ◌≤◌, ◌<◌, ◌≡◌, ◌≢◌, inl, inr, refl, ◌∙◌, ap, sym, none, some, List, [], ◌∷◌, arith, ◌==◌,
  count, Option-cases,
}
use openamp.Rpmsg.{MetalBitmap, RpmsgEndpoint, RpmsgDevice, addr_any, reserved_addresses}
use openamp.Rpmsg.Endpoint.{ept_matches, find_endpoint, rpmsg_get_endpoint, rpmsg_get_ept_from_addr}
use openamp.Rpmsg.Endpoint.Registry.{IsRegistry}

-- By an address alone, an endpoint matches iff it has that address.
matches-addr :
    (e : RpmsgEndpoint) (a : ℕ) → a ≢ addr_any → ept_matches e none a addr_any ≡ (e.addr == a)
unfolding ept_matches
matches-addr e a h = ground arith

find-some :
    (eps : ℕ → RpmsgEndpoint) (l : List ℕ) (a p : ℕ)
    → a ≢ addr_any
    → find_endpoint eps l none a addr_any ≡ some p
    → (0 < count p l) × ((eps p).addr ≡ a)
unfolding find_endpoint
find-some eps [] a p h e = ground arith
find-some eps (x ∷ l) a p h e = ground (arith, matches-addr (eps x) a h, find-some eps l a p h)

find-none :
    (eps : ℕ → RpmsgEndpoint) (l : List ℕ) (a p : ℕ)
    → a ≢ addr_any
    → find_endpoint eps l none a addr_any ≡ none
    → 0 < count p l
    → (eps p).addr ≢ a
unfolding find_endpoint
find-none eps [] a p h e c = ground arith
find-none eps (x ∷ l) a p h e c = ground (arith, matches-addr (eps x) a h, find-none eps l a p h)

module _ {B : Type 0} (m : MetalBitmap B) (rdev : RpmsgDevice B) (v : IsRegistry m rdev) where
  -- Where the invariant holds, `rpmsg_get_ept_from_addr` finds each registered endpoint that has a
  -- dynamic address, and no other, by that address.
  pub get_ept-found :
      (p : ℕ)
      → 0 < count p rdev.endpoints
      → reserved_addresses ≤ (rdev.eps p).addr
      → (rdev.eps p).addr ≢ addr_any
      → rpmsg_get_ept_from_addr rdev (rdev.eps p).addr ≡ some p
  unfolding rpmsg_get_ept_from_addr rpmsg_get_endpoint
  get_ept-found p mem lo any =
      elim (Option-cases (find_endpoint rdev.eps rdev.endpoints none (rdev.eps p).addr addr_any)) [
        | inl e ↦ absurd (find-none rdev.eps rdev.endpoints (rdev.eps p).addr p any e mem refl)
        | inr (q, e) ↦
            let (memq, same) = find-some rdev.eps rdev.endpoints (rdev.eps p).addr q any e in
            e ∙ ap some (sym (v.unique p q mem memq (sym same) lo))
      ]
