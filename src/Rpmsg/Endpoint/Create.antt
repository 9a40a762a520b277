-- ===== src/Rpmsg/Endpoint/Create.antt =====
-- lib/rpmsg/rpmsg.c: `rpmsg_create_ept` and `rpmsg_destroy_ept` keep the invariant of the endpoints,
-- and a failed creation leaves no trace.
use native.Mathlib.Decide.{ℕ_discrete}
use openamp.Base.{
  ℕ, ◌+◌, ◌<◌, ◌≡◌, ◌≢◌, ◌⊎◌, inl, inr, refl, sym, subst, true, false, ◌&&◌, Option, List, [], ◌∷◌,
  ◌++◌, arith, ◌==◌, if◌then◌else◌, count, count-append,
}
use openamp.Base.Array.{update, update-update}
use openamp.Rpmsg.{
  MetalBitmap, IsBitmap, RpmsgEndpoint, RpmsgDevice, Send, Ret, ok, err, ns_create, RpmsgError,
  addr_any, addr_bmp_size, reserved_addresses,
}
use openamp.Rpmsg.Address.Laws.{release_bit}
use openamp.Rpmsg.Endpoint.{
  rpmsg_initialize_ept, rpmsg_unregister_endpoint, choose_address, announce, rpmsg_create_ept,
  rpmsg_destroy_ept, settle, create_at, rpmsg_send_ns_message, has_name, list_del,
}
use openamp.Rpmsg.Endpoint.Registry.{
  IsRegistry, Chosen, unregister_frees, register-IsRegistry, unregister-IsRegistry,
}
use openamp.Rpmsg.Endpoint.Choose.{Refused, Answers, choose_address_cases}

list_del_new : (p : ℕ) (l : List ℕ) → count p l ≡ 0 → list_del p (l ++ (p ∷ [])) ≡ l
list_del_new p [] h = ground arith
list_del_new p (x ∷ l) h = ground (arith, list_del_new p l)

module _ {B T : Type 0} (m : MetalBitmap B) (law : IsBitmap m) (send : Send T)
    (rdev : RpmsgDevice B) (v : IsRegistry m rdev) (t : T) (ept : ℕ) (name : Option (List ℕ))
    (src dest cb unbind_cb : ℕ) (new : count ept rdev.endpoints ≡ 0) where
  -- The endpoint as it is registered.
  filled : (a : ℕ) → RpmsgEndpoint
  filled a =
      record (update rdev.eps ept (rpmsg_initialize_ept (rdev.eps ept) name a dest cb unbind_cb)
        ept) { rdev = true }

  -- What a result of the creation has to satisfy.
  abbrev pub Created : Ret × RpmsgDevice B × T → Type 0
  Created r =
      let (ret, rdev', t') = r in
      IsRegistry m rdev'
      × (((ret ≡ ok 0)
            × (rdev'.endpoints ≡ rdev.endpoints ++ (ept ∷ []))
            × Chosen m rdev.bitmap (rdev'.eps ept).addr rdev'.bitmap
            × Answers m rdev.bitmap src (rdev'.eps ept).addr rdev'.bitmap)
          ⊎ ((c : RpmsgError) × (ret ≡ err c)
              × (rdev'.endpoints ≡ rdev.endpoints)
              × ((i : ℕ)
                  → i < addr_bmp_size
                  → m.is_bit_set rdev'.bitmap i ≡ m.is_bit_set rdev.bitmap i)))

  module _ (a : ℕ) (b : B) (ch : Chosen m rdev.bitmap a b)
      (given : Answers m rdev.bitmap src a b) where
    abbrev joined : RpmsgDevice B
    joined = record rdev {
      bitmap = b;
      eps =
          update
            (update rdev.eps ept (rpmsg_initialize_ept (rdev.eps ept) name a dest cb unbind_cb)) ept
            (filled a);
      endpoints = rdev.endpoints ++ (ept ∷ []);
    }

    filled_addr : (filled a).addr ≡ a
    unfolding filled
    filled_addr = ground arith

    joined-IsRegistry : IsRegistry m joined
    unfolding filled
    joined-IsRegistry =
        subst
          (λ f.
            IsRegistry m
              (record rdev { bitmap = b; eps = f; endpoints = rdev.endpoints ++ (ept ∷ []) }))
          (sym (
            update-update rdev.eps ept
              (rpmsg_initialize_ept (rdev.eps ept) name a dest cb unbind_cb) (filled a)))
          (register-IsRegistry m rdev v ept (filled a) b new refl
            (subst (λ x. Chosen m rdev.bitmap x b) (sym filled_addr) ch))

    joined_addr : (joined.eps ept).addr ≡ a
    unfolding filled
    joined_addr = ground arith

    rolled_back :
        (i : ℕ)
        → i < addr_bmp_size
        → m.is_bit_set (rpmsg_unregister_endpoint m joined ept).bitmap i
          ≡ m.is_bit_set rdev.bitmap i
    unfolding rpmsg_unregister_endpoint
    rolled_back i lt = elim ch [
      | inl (k, klt, ea, clear, upd) ↦
          ground (arith, joined_addr, release_bit m law b addr_bmp_size a i lt, upd i)
      | inr (low, eb) ↦ ground (arith, joined_addr, release_bit m law b addr_bmp_size a i lt)
    ]

    settle-Created : (r : Ret × T) → Created (settle m send joined ept r)
    unfolding filled settle rpmsg_unregister_endpoint
    settle-Created (ok n, t') = (
      joined-IsRegistry,
      inl (
        refl,
        refl,
        subst (λ x. Chosen m rdev.bitmap x b) (sym joined_addr) ch,
        subst (λ x. Answers m rdev.bitmap src x b) (sym joined_addr) given,
      ),
    )
    settle-Created (err c, t') = (
      unregister-IsRegistry m joined joined-IsRegistry law ept
          (ground (arith, count-append ept rdev.endpoints (ept ∷ []))),
      inr (c, refl, list_del_new ept rdev.endpoints new, rolled_back),
    )

    announce-Created : Created (announce m send joined t ept)
    unfolding announce
    announce-Created = settle-Created (
        if has_name (joined.eps ept)
          && (joined.support_ns && (joined.eps ept).dest_addr == addr_any)
        then rpmsg_send_ns_message m send joined t ept ns_create
        else (ok 0, t))

  -- What `rpmsg_create_ept` does after the choice.
  create_at-Created :
      ((a : ℕ) × (b : B) × (choose_address m rdev.bitmap src ≡ (ok 0, a, b))
          × Chosen m rdev.bitmap a b
          × Answers m rdev.bitmap src a b)
        ⊎ ((c : RpmsgError) × (a : ℕ) × (b : B) × (choose_address m rdev.bitmap src ≡ (err c, a, b))
            × Refused m rdev.bitmap src c)
      → Created
          (create_at m send rdev t ept name dest cb unbind_cb (choose_address m rdev.bitmap src))
  unfolding create_at filled
  create_at-Created (inl (a, b, e, ch, given)) =
      subst (λ x. Created (create_at m send rdev t ept name dest cb unbind_cb x)) (sym e)
        (announce-Created a b ch given)
  create_at-Created (inr (c, a, b, e, why)) =
      subst (λ x. Created (create_at m send rdev t ept name dest cb unbind_cb x)) (sym e)
        (v, inr (c, refl, refl, λ i lt. refl))

  -- `rpmsg_create_ept` of an endpoint that is not registered keeps the invariant in every case. Either
  -- it returns 0 and the endpoint is registered last, with the address given or, for RPMSG_ADDR_ANY,
  -- with one of the dynamic ones, whose bit was clear and is set now; or it returns an error, and the registered endpoints and every
  -- bit of the bitmap are as before, also where the address was taken and the announcement failed.
  pub create-IsRegistry : Created (rpmsg_create_ept m send rdev t ept name src dest cb unbind_cb)
  unfolding rpmsg_create_ept
  create-IsRegistry = elim (ℕ_discrete ept 0) [
    | yes z ↦ subst Created (sym (is_null z)) (v, inr (RpmsgError.param, refl, refl, λ i lt. refl))
    | no some_ept ↦
        subst Created (sym (is_set some_ept))
          (create_at-Created (choose_address_cases m law rdev.bitmap src))
  ]
    where
      is_null :
          ept ≡ 0
          → rpmsg_create_ept m send rdev t ept name src dest cb unbind_cb
            ≡ (err RpmsgError.param, rdev, t)
      is_null z = ground arith

      is_set :
          ept ≢ 0
          → rpmsg_create_ept m send rdev t ept name src dest cb unbind_cb
            ≡ create_at m send rdev t ept name dest cb unbind_cb (choose_address m rdev.bitmap src)
      is_set z = ground arith

module _ {B T : Type 0} (m : MetalBitmap B) (law : IsBitmap m) (send : Send T)
    (rdev : RpmsgDevice B) (v : IsRegistry m rdev) (t : T) (ept : ℕ)
    (mem : 0 < count ept rdev.endpoints) where
  -- `rpmsg_destroy_ept` of a registered endpoint that is not NULL keeps the invariant, whatever the
  -- announcement returns: the endpoint is no longer registered, its address is free, and every other
  -- bit of the bitmap is as before.
  pub destroy-IsRegistry :
      ept ≢ 0
      → let (rdev', t') = rpmsg_destroy_ept m send rdev t ept in
        IsRegistry m rdev'
        × (count ept rdev'.endpoints ≡ 0)
        × ((i : ℕ)
            → i < addr_bmp_size
            → m.is_bit_set rdev'.bitmap i ≡ (
                if (rdev.eps ept).addr == reserved_addresses + i
                then false
                else m.is_bit_set rdev.bitmap i))
  unfolding rpmsg_destroy_ept
  destroy-IsRegistry ne =
      let frees = unregister_frees m rdev v law ept mem in
      subst
        (λ r.
          IsRegistry m r
          × (count ept r.endpoints ≡ 0)
          × ((i : ℕ)
              → i < addr_bmp_size
              → m.is_bit_set r.bitmap i ≡ (
                  if (rdev.eps ept).addr == reserved_addresses + i
                  then false
                  else m.is_bit_set rdev.bitmap i)))
        (sym goes) (unregister-IsRegistry m rdev v law ept mem, frees.0, frees.1)
    where
      goes : (rpmsg_destroy_ept m send rdev t ept).0 ≡ rpmsg_unregister_endpoint m rdev ept
      goes = ground (arith, v.attached ept mem)

  -- The list without its first endpoint, where this is destroyed.
  pub destroy_first :
      (rest : List ℕ)
      → ept ≢ 0
      → rdev.endpoints ≡ ept ∷ rest
      → (rpmsg_destroy_ept m send rdev t ept).0.endpoints ≡ rest
  unfolding rpmsg_destroy_ept rpmsg_unregister_endpoint
  destroy_first rest ne e =
      let first : list_del ept (ept ∷ rest) ≡ rest = ground arith in
      ground (arith, v.attached ept mem, e, first)
