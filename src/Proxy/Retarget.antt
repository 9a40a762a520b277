-- ===== src/Proxy/Retarget.antt =====
-- lib/proxy/rpmsg_retarget.c: the client of the remote procedure calls.
--
-- `Rpc` is `struct rpmsg_rpc_data`; the buffer behind `respbuf` is its list of bytes, as long as `respbuf_len`
-- says, and NULL is `none`. `W` is everything else: the endpoint, the other core, the platform. While a call
-- waits, `poll` runs, and the callbacks of the endpoint are called for the events that it brings. The spin lock
-- guards the buffer only, so that a call of a callback is one step.
pub mod Files
pub mod Wait
use openamp.Base.{
  ℕ, zero, suc, Bool, true, false, not, Option, none, some, List, [], ◌∷◌, ◌==◌, if◌then◌else◌,
  ◌>>=◌, length,
}
use openamp.Proxy.{term_id, minus_einval, is_negative, take_u32, overlay}

pub record Rpc : Type 0 where
  pub ept_destroyed : Bool
  pub nacked : Bool
  pub respbuf : Option (List ℕ)
  pub lock : Bool

-- What calls a callback of the endpoint: a message, or the end of the service at the other side.
pub data Event : Type 0 where
  message : Option (List ℕ) → Event
  unbind : Event

-- `rpmsg_send`, `rpmsg_destroy_ept` and `shutdown_cb` on the rest of the state, and one turn of `poll`. A
-- `shutdown_cb` of NULL and a `poll` of NULL do nothing.
pub record RpcOps (W : Type 0) : Type 0 where
  pub send : W → List ℕ → ℕ × W
  pub destroy_ept : W → W
  pub shutdown_cb : W → W
  pub poll : W → List Event × W

-- The copy into the response buffer, where there is one.
abbrev pub respond : Rpc → List ℕ → Rpc
respond rpc bytes = record rpc {
  respbuf = elim rpc.respbuf [ none ↦ none | some buf ↦ some (overlay buf bytes) ];
  nacked = false;
}

module _ {W : Type 0} (ops : RpcOps W) where
  -- `rpmsg_rpc_ept_cb`; its result is always RPMSG_SUCCESS. `none` inside is a NULL pointer to the data.
  pub rpmsg_rpc_ept_cb : Rpc → W → Option (List ℕ) → Option (Rpc × W)
  rpmsg_rpc_ept_cb rpc w none = some (rpc, w)
  rpmsg_rpc_ept_cb rpc w (some bytes) = do
    (id, _) ← take_u32 bytes
    some (if id == term_id then (rpc, ops.destroy_ept w) else (respond rpc bytes, w))

  pub rpmsg_service_unbind : Rpc → W → Rpc × W
  rpmsg_service_unbind rpc w =
      (record rpc { ept_destroyed = true; nacked = false }, ops.shutdown_cb (ops.destroy_ept w))

  -- The callbacks of one turn.
  pub deliver : Rpc → W → List Event → Option (Rpc × W)
  unfolding rpmsg_rpc_ept_cb rpmsg_service_unbind
  deliver rpc w [] = some (rpc, w)
  deliver rpc w (message bytes ∷ events) = do
    (rpc, w) ← rpmsg_rpc_ept_cb rpc w bytes
    deliver rpc w events
  deliver rpc w (unbind ∷ events) =
      let (rpc, w) = rpmsg_service_unbind rpc w in deliver rpc w events

  -- The loop of `rpmsg_rpc_init` until the endpoint is ready.
  pub wait_ept : (is_ready : W → Bool) → (fuel : ℕ) → Rpc → W → Option (Rpc × W)
  unfolding deliver
  wait_ept is_ready zero rpc w = none
  wait_ept is_ready (suc fuel) rpc w = elim (is_ready w) [
    | true ↦ some (rpc, w)
    | false ↦ do
      let (events, w) = ops.poll w
      (rpc, w) ← deliver rpc w events
      wait_ept is_ready fuel rpc w
  ]

  -- `rpmsg_rpc_init` with the creation of the endpoint, whose result is 0 for success; the device is not NULL.
  pub rpmsg_rpc_init :
      (create_ept : W → ℕ × W)
      → (is_ready : W → Bool) → (fuel : ℕ) → Option Rpc
      → W
      → Option (ℕ × Option Rpc × W)
  unfolding wait_ept
  rpmsg_rpc_init create_ept is_ready fuel none w = some (minus_einval, none, w)
  rpmsg_rpc_init create_ept is_ready fuel (some _) w =
      let rpc : Rpc = record {
        ept_destroyed = false;
        nacked = true;
        respbuf = none;
        lock = false;
      } in
      let (ret, w) = create_ept w in
      elim (ret == 0) [
        | false ↦ some (minus_einval, some (record rpc { lock = false }), w)
        | true ↦ do (rpc, w) ← wait_ept is_ready fuel rpc w; some (0, some rpc, w)
      ]

  pub rpmsg_rpc_release : Option Rpc → W → Option Rpc × W
  rpmsg_rpc_release none w = (none, w)
  rpmsg_rpc_release (some rpc) w = (
    some (record rpc { respbuf = none; lock = false }),
    if rpc.ept_destroyed then w else ops.destroy_ept w,
  )

  -- The loop of `rpmsg_rpc_send` until the response was received: the flag is set again each time that it is
  -- looked at.
  pub wait_ack : (fuel : ℕ) → Rpc → W → Option (Rpc × W)
  unfolding deliver
  wait_ack zero rpc w = none
  wait_ack (suc fuel) rpc w = elim rpc.nacked [
    | false ↦ some (record rpc { nacked = true }, w)
    | true ↦ do let (events, w) = ops.poll w; (rpc, w) ← deliver rpc w events; wait_ack fuel rpc w
  ]

  pub rpmsg_rpc_send :
      (fuel : ℕ)
      → Option Rpc
      → W
      → (req : List ℕ) → (resp : Option (List ℕ)) → Option (ℕ × Option Rpc × W)
  unfolding wait_ack
  rpmsg_rpc_send fuel none w req resp = some (minus_einval, none, w)
  rpmsg_rpc_send fuel (some rpc) w req resp =
      let rpc : Rpc = record rpc { respbuf = resp; nacked = true } in
      let (ret, w) = ops.send w req in
      elim (is_negative ret) [
        | true ↦ some (minus_einval, some rpc, w)
        | false ↦ elim resp [
          | none ↦ some (ret, some rpc, w)
          | some _ ↦ do (rpc, w) ← wait_ack fuel rpc w; some (ret, some rpc, w)
        ]
      ]

-- `rpmsg_set_default_rpc`, on the pointer `rpmsg_default_rpc`
pub rpmsg_set_default_rpc : (default rpc : Option Rpc) → Option Rpc
rpmsg_set_default_rpc default none = default
rpmsg_set_default_rpc default (some rpc) = some rpc
