-- ===== src/RpmsgVirtio/Receive/Announce.antt =====
-- lib/rpmsg/rpmsg_virtio.c: what `rpmsg_virtio_ns_callback` does to the endpoint that it finds.
use openamp.Base.{ℕ, ◌≡◌, ◌≢◌, none, some, List, arith, bit_and}
use openamp.Rpmsg.{RpmsgDevice, addr_any, ns_destroy, sizeof_ns_msg}
use openamp.Rpmsg.Endpoint.{rpmsg_get_endpoint}
use openamp.RpmsgVirtio.Receive.{unbind, ns_callback}

module _ {B : Type 0} (rdev : RpmsgDevice B) (ns_ept dest flags ept : ℕ) (name : List ℕ)
    (found : rpmsg_get_endpoint rdev (some name) addr_any dest ≡ some ept) where
  -- A destruction message for an endpoint that is found, with an unbind callback, takes its destination
  -- away, and its unbind callback gets the name service endpoint, whichever endpoint was found. A
  -- creation message for it gives it the destination of the message and calls no callback.
  pub ns_callback_found :
      (rdev.eps ept).ns_unbind_cb ≢ 0
      → let run = ns_callback rdev ns_ept sizeof_ns_msg name dest flags in
        (bit_and flags ns_destroy ≢ 0
          → (run.0 ≡ some (unbind ept ns_ept)) × ((run.1.eps ept).dest_addr ≡ addr_any))
        × (bit_and flags ns_destroy ≡ 0 → (run.0 ≡ none) × ((run.1.eps ept).dest_addr ≡ dest))
  unfolding ns_callback
  ns_callback_found cb = (λ d. ground (arith, found), λ c. ground (arith, found))
