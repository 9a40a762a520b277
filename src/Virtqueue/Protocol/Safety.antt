-- ===== src/Virtqueue/Protocol/Safety.antt =====
-- lib/virtio/virtqueue.c: what holds after the steps of the two cores, in any order.
use openamp.Base.{
  ℕ, zero, suc, ◌^◌, ◌<◌, ◌≡◌, ◌∙◌, refl, ap, sym, subst, Bool, false, Option, none, some, ◌⊎◌, inl,
  inr, ◌↔◌, List, [], ◌∷◌, ◌++◌, arith,
}
use mathlib.Core.Option.{some-injective}
use openamp.Virtqueue.{Virtqueue, ShmIo, success}
use openamp.Virtqueue.Driver.{Got, virtqueue_get_buffer}
use openamp.Virtqueue.Driver.Owned.{IsDriver}
use openamp.Virtqueue.Driver.Get.{get_buffer-none}
use openamp.Virtqueue.Device.{Available, virtqueue_get_available_buffer}
use openamp.Virtqueue.Device.Calls.{get_available-none}
use openamp.Virtqueue.Protocol.{
  System, Step, add, take, return, collect, Reach, here, next, driver_moves, device_moves,
}
use openamp.Virtqueue.Protocol.Invariant.{IsShared}
use openamp.Virtqueue.Protocol.DriverMoves.{add-IsShared, collect-IsShared}
use openamp.Virtqueue.Protocol.DeviceMoves.{take-IsShared, return-IsShared}

-- Two results of one call are the same.
same_result {ℓ} : {A : Type ℓ} {o : Option A} (a b : A) → o ≡ some a → o ≡ some b → a ≡ b
same_result a b p q = some-injective a b (sym p ∙ q)

pub zero_or_suc : (n : ℕ) → (n ≡ 0) ⊎ ((m : ℕ) × (n ≡ suc m))
zero_or_suc zero = inl refl
zero_or_suc (suc m) = inr (m, refl)

-- The system after the device's poll had a given result.
abbrev after_take : System → Option Available × Virtqueue → System
after_take s (none, vq) = s
after_take s (some a, vq) = device_moves s vq (a.avail_idx ∷ s.held)

module _ (dbg : Bool) (io : ShmIo) where
  none_available :
      {s : System} (v : IsShared s)
      → v.navail ≡ 0
      → virtqueue_get_available_buffer dbg io s.device ≡ some (none, s.device)
  none_available {s} v e =
      get_available-none dbg s.device io
        (omega (arith, e, v.avail_eq, v.avail_word, ap (λ r. r.avail_idx) v.coherent))

  pub none_used :
      {s : System} (v : IsShared s)
      → v.nused ≡ 0
      → virtqueue_get_buffer dbg s.driver ≡ some (none, s.driver)
  none_used {s} v e = get_buffer-none dbg s.driver (omega (arith, e, v.used_eq, v.used_word))

  -- Every step that the driver or the device makes keeps the invariant.
  Step-IsShared : {s t : System} → Step dbg io s t → IsShared s → IsShared t
  Step-IsShared {s} (add bufs readable writable cookie vq hc pos fits few eq) v =
      let (vq', eq', v', _, _) =
        add-IsShared dbg io v bufs readable writable cookie hc pos fits few in
      subst (λ q. IsShared (driver_moves s q))
        (ap (λ r. r.1) (same_result (success, vq') (success, vq) eq' eq)) v'
  Step-IsShared {s} (take a vq eq) v = elim (zero_or_suc v.navail) [
    | inl e ↦ cc (same_result _ _ (none_available v e) eq)
    | inr (m, e) ↦
        let (vq', eq', v') = take-IsShared dbg io v m e in
        subst IsShared (ap (after_take s) (same_result _ (some a, vq) eq' eq)) v'
  ]
  Step-IsShared {s} (return pre post h len vq e eq) v =
      let (vq', eq', v', _) = return-IsShared dbg io v pre post h len e in
      subst (λ q. IsShared (device_moves s q (pre ++ post)))
        (ap (λ r. r.1) (same_result (success, vq') (success, vq) eq' eq)) v'
  Step-IsShared {s} (collect g vq eq) v = elim (zero_or_suc v.nused) [
    | inl e ↦ cc (same_result _ _ (none_used v e) eq)
    | inr (m, e) ↦
        let (g', vq', eq', v', _) = collect-IsShared dbg io v m e in
        subst (λ q. IsShared (driver_moves s q))
          (ap (λ r. r.1) (same_result (some g', vq') (some g, vq) eq' eq)) v'
  ]

  Reach-IsShared : {s t : System} → IsShared s → Reach dbg io s t → IsShared t
  Reach-IsShared v here = v
  Reach-IsShared v (next r st) = Step-IsShared st (Reach-IsShared v r)

  -- From a state that keeps the invariant, every sequence of these calls, in any order, leads to a
  -- state that keeps it: the driver adds one or more buffers, all of them in its list and no more
  -- than there are free descriptors, with a cookie that is not NULL; the device takes an available
  -- buffer; the device returns a chain that it holds, by its head, with any length; the driver
  -- collects a used buffer. Calls outside these conditions, kicks and the switching of callbacks
  -- are no steps. In every such state each descriptor is free or in one chain in flight, and each
  -- chain in flight is in exactly one place; there neither side's poll makes an access outside an
  -- array or fails an assertion, in either build, and each tells whether there is something to
  -- take.
  pub Reach-safe :
      {s t : System}
      → IsShared s
      → Reach dbg io s t
      → (v : IsShared t) × ((p : Option Available × Virtqueue) × (virtqueue_get_available_buffer dbg
              io t.device
            ≡ some p)
          × ((p.0 ≡ none) ↔ (v.navail ≡ 0)))
        × ((p : Option Got × Virtqueue) × (virtqueue_get_buffer dbg t.driver ≡ some p)
            × ((p.0 ≡ none) ↔ (v.nused ≡ 0)))
  Reach-safe {t} w r =
      let v = Reach-IsShared w r in
      (
        v,
        elim (zero_or_suc v.navail) [
          | inl e ↦ ((none, t.device), none_available v e, (λ _. e, λ _. refl))
          | inr (m, e) ↦
              let (vq', eq', v') = take-IsShared dbg io v m e in
              ((_, vq'), eq', (λ h. cc h, λ h. absurd (omega (arith, e))))
        ],
        elim (zero_or_suc v.nused) [
          | inl e ↦ ((none, t.driver), none_used v e, (λ _. e, λ _. refl))
          | inr (m, e) ↦
              let (g', vq', eq', v', _) = collect-IsShared dbg io v m e in
              ((some g', vq'), eq', (λ h. cc h, λ h. absurd (omega (arith, e))))
        ],
      )

-- Two queues of one size over one ring memory, nothing in flight and nothing waiting, keep the
-- invariant.
pub start-IsShared :
    (driver device : Virtqueue) (free : List ℕ)
    → IsDriver driver free []
    → device.vring ≡ driver.vring
    → device.nentries ≡ driver.nentries
    → device.inuse ≡ false
    → device.available_idx < 2 ^ 16
    → device.vring.avail_idx ≡ device.available_idx
    → driver.used_cons_idx < 2 ^ 16
    → driver.vring.used_idx ≡ driver.used_cons_idx
    → IsShared (record { driver = driver; device = device; held = [] })
start-IsShared driver device free v c n i aw a uw u = record {
  free = free;
  busy = [];
  navail = 0;
  nused = 0;
  driver = v;
  coherent = c;
  same_size = n;
  not_inuse = i;
  avail_word = aw;
  avail_eq = omega (arith, ap (λ r. r.avail_idx) c);
  used_word = uw;
  used_eq = omega arith;
  placed = λ j. refl;
  placed_length = refl;
}
