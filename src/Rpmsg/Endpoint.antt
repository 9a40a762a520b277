-- ===== src/Rpmsg/Endpoint.antt =====
-- lib/rpmsg/rpmsg.c: the endpoints of a device, `rpmsg_get_endpoint`, `rpmsg_register_endpoint`,
-- `rpmsg_unregister_endpoint`, `rpmsg_send_offchannel_raw`, `rpmsg_send_ns_message`,
-- `rpmsg_create_ept` and `rpmsg_destroy_ept`.
--
-- A pointer to an endpoint is a number, 0 is NULL. `metal_list_add_tail`, `metal_list_del` and
-- `metal_list_for_each` are a sequence of pointers. Every function holds the device's lock where it
-- changes the list or the bitmap, so that each is one step.

pub mod Choose
pub mod Announce
pub mod Registry
pub mod Create
pub mod Lookup
use openamp.Base.{
  ℕ, zero, suc, ◌+◌, ◌-◌, Bool, true, false, not, ◌&&◌, ◌||◌, Option, none, some, List, [], ◌∷◌,
  ◌++◌, ltb, leb, ◌==◌, if◌then◌else◌,
}
use openamp.Base.Array.{update}
use openamp.Rpmsg.{
  RpmsgEndpoint, RpmsgDevice, MetalBitmap, Send, Ret, ok, err, RpmsgError, RpmsgNsMsg, name_size,
  addr_any, addr_bmp_size, reserved_addresses, ns_ept_addr, ns_create, ns_destroy, sizeof_ns_msg,
  strncpy, strncmp_eq, ns_msg_bytes,
}
use openamp.Rpmsg.Address.{
  rpmsg_get_address, rpmsg_release_address, rpmsg_is_address_set, rpmsg_set_address,
}

-- The part of the loop of `rpmsg_get_endpoint` that goes by the name, if there is one.
abbrev pub name_matches : RpmsgEndpoint → (name : Option (List ℕ)) → (addr dest_addr : ℕ) → Bool
name_matches ept none addr dest_addr = false
name_matches ept (some n) addr dest_addr =
    strncmp_eq name_size ept.name n
    && ((not (dest_addr == addr_any) && ept.dest_addr == dest_addr)
        || (addr == addr_any && ept.dest_addr == addr_any))

-- The body of the loop: whether it returns this endpoint.
unfoldable pub ept_matches : RpmsgEndpoint → (name : Option (List ℕ)) → (addr dest_addr : ℕ) → Bool
ept_matches ept name addr dest_addr =
    if not (addr == addr_any) && ept.addr == addr
    then true
    else (if addr == ept.addr && dest_addr == ept.dest_addr
        then true
        else name_matches ept name addr dest_addr)

unfoldable pub find_endpoint :
    (eps : ℕ → RpmsgEndpoint) → List ℕ → (name : Option (List ℕ)) → (addr dest_addr : ℕ) → Option ℕ
find_endpoint eps [] name addr dest_addr = none
find_endpoint eps (p ∷ ps) name addr dest_addr =
    let rest = find_endpoint eps ps name addr dest_addr in
    if ept_matches (eps p) name addr dest_addr then some p else rest

-- `metal_list_del`: the first occurrence of the node.
abbrev pub list_del : ℕ → List ℕ → List ℕ
list_del p [] = []
list_del p (q ∷ qs) = if q == p then qs else q ∷ list_del p qs

-- `rpmsg_initialize_ept`; a name of `none` is NULL.
abbrev pub rpmsg_initialize_ept :
    RpmsgEndpoint → (name : Option (List ℕ)) → (src dest cb ns_unbind_cb : ℕ) → RpmsgEndpoint
rpmsg_initialize_ept ept name src dest cb ns_unbind_cb = record ept {
  name = strncpy name_size (elim name [ none ↦ [] | some n ↦ n ]);
  addr = src;
  dest_addr = dest;
  cb = cb;
  ns_unbind_cb = ns_unbind_cb;
}

-- `ept->name[0]`, as a test
abbrev pub has_name : RpmsgEndpoint → Bool
has_name ept = elim ept.name [ [] ↦ false | c ∷ _ ↦ not (c == 0) ]

module _ {B : Type 0} where
  -- `rpmsg_get_endpoint`, and `rpmsg_get_ept_from_addr` of rpmsg_internal.h
  unfoldable pub rpmsg_get_endpoint :
      RpmsgDevice B → (name : Option (List ℕ)) → (addr dest_addr : ℕ) → Option ℕ
  unfolding find_endpoint
  rpmsg_get_endpoint rdev name addr dest_addr =
      find_endpoint rdev.eps rdev.endpoints name addr dest_addr

  pub rpmsg_get_ept_from_addr : RpmsgDevice B → (addr : ℕ) → Option ℕ
  unfolding rpmsg_get_endpoint
  rpmsg_get_ept_from_addr rdev addr = rpmsg_get_endpoint rdev none addr addr_any

  -- `rpmsg_register_endpoint`
  abbrev pub rpmsg_register_endpoint : RpmsgDevice B → (ept : ℕ) → RpmsgDevice B
  rpmsg_register_endpoint rdev ept = record rdev {
    eps = update rdev.eps ept (record (rdev.eps ept) { rdev = true });
    endpoints = rdev.endpoints ++ (ept ∷ []);
  }

  module _ (m : MetalBitmap B) where
    -- `rpmsg_unregister_endpoint`
    pub rpmsg_unregister_endpoint : RpmsgDevice B → (ept : ℕ) → RpmsgDevice B
    rpmsg_unregister_endpoint rdev ept =
        let addr = (rdev.eps ept).addr in
        record rdev {
          bitmap =
              if not (addr == addr_any)
              then rpmsg_release_address m rdev.bitmap addr_bmp_size addr
              else rdev.bitmap;
          endpoints = list_del ept rdev.endpoints;
          eps = update rdev.eps ept (record (rdev.eps ept) { rdev = false });
        }

    -- The choice of the address in `rpmsg_create_ept`: a status of `ok 0`, the address and the
    -- bitmap with that address marked, or an error.
    pub choose_address : B → (src : ℕ) → Ret × ℕ × B
    choose_address bitmap src =
        if src == addr_any
        then (let (a, b) = rpmsg_get_address m bitmap addr_bmp_size in
            if a == addr_any then (err RpmsgError.addr, a, b) else (ok 0, a, b))
        else (if leb reserved_addresses src
            then elim (rpmsg_is_address_set m bitmap addr_bmp_size src) [
              | ok zero ↦ (ok 0, src, (rpmsg_set_address m bitmap addr_bmp_size src).1)
              | ok (suc n) ↦ (err RpmsgError.addr, src, bitmap)
              | err e ↦ (err e, src, bitmap)
            ]
            else (ok 0, src, bitmap))

    module _ {T : Type 0} (send : Send T) where
      -- `rpmsg_send_offchannel_raw`; `none` for the data is NULL.
      pub rpmsg_send_offchannel_raw :
          RpmsgDevice B
          → T
          → (ept src dst : ℕ) → (payload : Option (List ℕ)) → (size : ℕ) → (wait : Bool) → Ret × T
      rpmsg_send_offchannel_raw rdev t ept src dst none size wait = (err RpmsgError.param, t)
      rpmsg_send_offchannel_raw rdev t ept src dst (some bytes) size wait =
          if ept == 0 || (not (rdev.eps ept).rdev || dst == addr_any)
          then (err RpmsgError.param, t)
          else (if rdev.has_send then send t src dst bytes size wait else (err RpmsgError.param, t))

      -- `rpmsg_send_ns_message`
      pub rpmsg_send_ns_message : RpmsgDevice B → T → (ept flags : ℕ) → Ret × T
      unfolding rpmsg_send_offchannel_raw
      rpmsg_send_ns_message rdev t ept flags =
          let e = rdev.eps ept in
          let msg : RpmsgNsMsg = record {
            name = strncpy name_size e.name;
            addr = e.addr;
            flags = flags;
          } in
          let (ret, t') =
            rpmsg_send_offchannel_raw rdev t ept e.addr ns_ept_addr (some (ns_msg_bytes msg))
              sizeof_ns_msg true in
          (elim ret [ ok n ↦ ok 0 | err c ↦ err c ], t')

      -- The end of `rpmsg_create_ept`: the way back if the announcement failed.
      pub settle : RpmsgDevice B → (ept : ℕ) → Ret × T → Ret × RpmsgDevice B × T
      unfolding rpmsg_unregister_endpoint
      settle rdev ept (ok n, t) = (ok 0, rdev, t)
      settle rdev ept (err c, t) = (err c, rpmsg_unregister_endpoint rdev ept, t)

      -- `rpmsg_create_ept` from the announcement on.
      pub announce : RpmsgDevice B → T → (ept : ℕ) → Ret × RpmsgDevice B × T
      unfolding rpmsg_send_ns_message settle
      announce rdev t ept =
          let e = rdev.eps ept in
          settle rdev ept (
            if has_name e && (rdev.support_ns && e.dest_addr == addr_any)
            then rpmsg_send_ns_message rdev t ept ns_create
            else (ok 0, t))

      -- `rpmsg_create_ept` from the registration on, with the address that was chosen.
      pub create_at :
          RpmsgDevice B
          → T
          → (ept : ℕ) → (name : Option (List ℕ)) → (dest cb unbind_cb : ℕ) → Ret × ℕ × B
          → Ret × RpmsgDevice B × T
      unfolding announce
      create_at rdev t ept name dest cb unbind_cb (ok n, addr, bitmap) =
          announce
            (rpmsg_register_endpoint
              (record rdev {
                bitmap = bitmap;
                eps =
                    update rdev.eps ept
                      (rpmsg_initialize_ept (rdev.eps ept) name addr dest cb unbind_cb);
              })
              ept)
            t ept
      create_at rdev t ept name dest cb unbind_cb (err c, addr, bitmap) = (err c, rdev, t)

      -- `rpmsg_create_ept`
      pub rpmsg_create_ept :
          RpmsgDevice B
          → T
          → (ept : ℕ) → (name : Option (List ℕ)) → (src dest cb unbind_cb : ℕ)
          → Ret × RpmsgDevice B × T
      unfolding choose_address create_at
      rpmsg_create_ept rdev t ept name src dest cb unbind_cb =
          if ept == 0
          then (err RpmsgError.param, rdev, t)
          else create_at rdev t ept name dest cb unbind_cb (choose_address rdev.bitmap src)

      -- `rpmsg_destroy_ept`
      pub rpmsg_destroy_ept : RpmsgDevice B → T → (ept : ℕ) → RpmsgDevice B × T
      unfolding rpmsg_send_ns_message rpmsg_unregister_endpoint
      rpmsg_destroy_ept rdev t ept =
          let e = rdev.eps ept in
          if ept == 0 || not e.rdev
          then (rdev, t)
          else (let t' =
                if has_name e && (rdev.support_ns && leb reserved_addresses e.addr)
                then (rpmsg_send_ns_message rdev t ept ns_destroy).1
                else t in
              (rpmsg_unregister_endpoint rdev ept, t'))
