-- ===== src/RpmsgVirtio/Init/Close.antt =====
-- lib/rpmsg/rpmsg_virtio.c: the loop of `rpmsg_deinit_vdev` ends, with every endpoint destroyed.
use openamp.Base.{
  ℕ, zero, suc, ◌≤◌, ◌<◌, ◌≡◌, ◌≢◌, refl, ◌∙◌, false, some, List, [], ◌∷◌, arith, length, count, ap,
  Bool-cases, inl, inr,
}
use openamp.Rpmsg.{RpmsgDevice, MetalBitmap, IsBitmap, Send, addr_bmp_size}
use openamp.Rpmsg.Endpoint.{rpmsg_destroy_ept}
use openamp.Rpmsg.Endpoint.Registry.{IsRegistry}
use openamp.Rpmsg.Endpoint.Create.{destroy-IsRegistry, destroy_first}
use openamp.RpmsgVirtio.Init.{rpmsg_deinit_vdev}

module _ {B T : Type 0} (m : MetalBitmap B) (law : IsBitmap m) (send : Send T) where
  round :
      (fuel : ℕ) (rdev : RpmsgDevice B) (t : T) (p : ℕ) (ps : List ℕ)
      → rdev.endpoints ≡ p ∷ ps
      → let r = rpmsg_destroy_ept m send rdev t p in
        rpmsg_deinit_vdev m send (suc fuel) rdev t ≡ rpmsg_deinit_vdev m send fuel r.0 r.1
  unfolding rpmsg_deinit_vdev
  round fuel rdev t p ps e = ground (arith, e)

  none_taken :
      (rdev : RpmsgDevice B)
      → IsRegistry m rdev
      → rdev.endpoints ≡ []
      → (i : ℕ) → i < addr_bmp_size
      → m.is_bit_set rdev.bitmap i ≡ false
  none_taken rdev v e i lt = elim (Bool-cases (m.is_bit_set rdev.bitmap i)) [
    | inl set ↦ let (q, has, _) = v.owned i lt set in absurd (omega (arith, has, ap (count q) e))
    | inr free ↦ free
  ]

  -- On a device that keeps the invariant of the endpoints, with no NULL among the registered ones,
  -- `rpmsg_deinit_vdev` ends after as many rounds as there are endpoints, whatever the messages to the
  -- other core return: no endpoint is registered any more, and no address is taken.
  pub deinit_vdev-empty :
      (eps : List ℕ) (fuel : ℕ) (rdev : RpmsgDevice B) (t : T)
      → IsRegistry m rdev
      → rdev.endpoints ≡ eps
      → count 0 eps ≡ 0
      → length eps ≤ fuel
      → (rdev' : RpmsgDevice B) × (t' : T) × (rpmsg_deinit_vdev m send fuel rdev t
          ≡ some (rdev', t'))
        × (rdev'.endpoints ≡ [])
        × ((i : ℕ) → i < addr_bmp_size → m.is_bit_set rdev'.bitmap i ≡ false)
  unfolding rpmsg_deinit_vdev
  deinit_vdev-empty [] zero rdev t v e ne le = (rdev, t, rw e refl, e, none_taken rdev v e)
  deinit_vdev-empty [] (suc fuel) rdev t v e ne le = (rdev, t, rw e refl, e, none_taken rdev v e)
  deinit_vdev-empty (p ∷ ps) zero rdev t v e ne le = absurd (omega arith)
  deinit_vdev-empty (p ∷ ps) (suc fuel) rdev t v e ne le =
      let mem : 0 < count p rdev.endpoints = ground (arith, e) in
      let set : p ≢ 0 = ground (arith, ne) in
      let r = rpmsg_destroy_ept m send rdev t p in
      let (rdev', t', eq, none_left, free) =
        deinit_vdev-empty ps fuel r.0 r.1 (destroy-IsRegistry m law send rdev v t p mem set).0
          (destroy_first m law send rdev v t p mem ps set e) (ground (arith, ne)) (omega arith) in
      (rdev', t', round fuel rdev t p ps e ∙ eq, none_left, free)
