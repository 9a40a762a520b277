-- ===== src/Rpmsg/Endpoint/Announce.antt =====
-- lib/rpmsg/rpmsg.c: what the other side reads out of the message of `rpmsg_send_ns_message`.
use openamp.Base.{
  ℕ, ◌^◌, ◌<◌, ◌≡◌, ◌≢◌, refl, true, false, some, List, arith, length, take, drop, ◌==◌,
}
use openamp.Rpmsg.{
  MetalBitmap, RpmsgDevice, Send, ok, err, name_size, sizeof_ns_msg, ns_ept_addr, strncpy,
  strncmp_eq, ns_msg_bytes, read_u32,
}
use openamp.Rpmsg.Endpoint.{rpmsg_send_ns_message, rpmsg_send_offchannel_raw}
use openamp.Rpmsg.Message.{ns_msg_bytes-fields}

-- `rpmsg_send_ns_message` for an endpoint that is not NULL and is registered, on a device that can
-- send, with 32-bit address and flags: it calls the device's send function once, from the
-- endpoint's address to the name service's, to wait, with a payload of `sizeof (struct
-- rpmsg_ns_msg)` bytes. The name in them compares equal to the endpoint's by `strncmp` up to
-- RPMSG_NAME_SIZE, also where it was cut off, and the endpoint's address and the flags read back.
-- A number of bytes sent becomes 0, and an error is passed on.
pub send_ns_message-roundtrip :
    {B T : Type 0} (m : MetalBitmap B) (send : Send T) (rdev : RpmsgDevice B) (t : T)
    (ept flags : ℕ)
    → ept ≢ 0
    → (rdev.eps ept).rdev ≡ true
    → rdev.has_send ≡ true
    → (rdev.eps ept).addr < 2 ^ 32
    → flags < 2 ^ 32
    → (bytes : List ℕ) × (let (ret, t') =
          send t (rdev.eps ept).addr ns_ept_addr bytes sizeof_ns_msg true in
        rpmsg_send_ns_message m send rdev t ept flags
        ≡ (elim ret [ ok n ↦ ok 0 | err c ↦ err c ], t'))
      × (length bytes ≡ sizeof_ns_msg)
      × (strncmp_eq name_size (take name_size bytes) (rdev.eps ept).name ≡ true)
      × (read_u32 (drop 32 bytes) ≡ some (rdev.eps ept).addr)
      × (read_u32 (drop 36 bytes) ≡ some flags)
unfolding rpmsg_send_ns_message rpmsg_send_offchannel_raw
send_ns_message-roundtrip m send rdev t ept flags some_ept registered sends ha hf =
    let e = rdev.eps ept in
    let (whole, name, addr, fl) = ns_msg_bytes-fields e.name e.addr flags ha hf in
    let given : (ept == 0) ≡ false = ground (arith, some_ept) in
    (
      ns_msg_bytes (record { name = strncpy name_size e.name; addr = e.addr; flags = flags }),
      rw (given, registered, sends) refl,
      whole,
      name,
      addr,
      fl,
    )
