-- ===== src/Proxy/Retarget/Wait.antt =====
-- lib/proxy/rpmsg_retarget.c: the wait of `rpmsg_rpc_send` for its response.
use openamp.Base.{ℕ, zero, suc, ◌+◌, ◌≤◌, ◌≡◌, ◌≢◌, true, false, some, List, [], ◌∷◌, arith}
use openamp.Proxy.{is_negative, take_u32, term_id, overlay}
use openamp.Proxy.Retarget.{
  Rpc, message, RpcOps, rpmsg_rpc_ept_cb, deliver, wait_ack, rpmsg_rpc_send,
}

module _ {W : Type 0} (ops : RpcOps W) where
  -- Nothing arrives in `k` turns, and the answer and nothing else in the turn after them.
  abbrev pub Arrives : (k : ℕ) → W → (answer : List ℕ) → W → Type 0
  Arrives zero w answer w' = ops.poll w ≡ (message (some answer) ∷ [], w')
  Arrives (suc k) w answer w' = (w1 : W) × (ops.poll w ≡ ([], w1)) × Arrives k w1 answer w'

  wait_ack-one :
      (fuel k : ℕ) (rpc : Rpc) (buf : List ℕ) (w w' : W) (answer : List ℕ) (id : ℕ) (rest : List ℕ)
      → k + 2 ≤ fuel
      → Arrives k w answer w'
      → take_u32 answer ≡ some (id, rest)
      → id ≢ term_id
      → wait_ack ops fuel (record rpc { respbuf = some buf; nacked = true }) w
        ≡ some (record rpc { respbuf = some (overlay buf answer); nacked = true }, w')
  unfolding wait_ack deliver rpmsg_rpc_ept_cb
  wait_ack-one zero k rpc buf w w' answer id rest le arrives parsed alive = absurd (omega arith)
  wait_ack-one (suc zero) k rpc buf w w' answer id rest le arrives parsed alive =
      absurd (omega arith)
  wait_ack-one (suc (suc fuel)) zero rpc buf w w' answer id rest le arrives parsed alive =
      ground (arith, arrives, parsed, alive)
  wait_ack-one (suc (suc fuel)) (suc k) rpc buf w w' answer id rest le (w1, e, arrives) parsed
        alive =
      ground (
        arith,
        e,
        wait_ack-one (suc fuel) k rpc buf w1 w' answer id rest (omega arith) arrives parsed alive,
      )

  -- `rpmsg_rpc_send` with a buffer for the response, where the request is sent and the answer, a message of at
  -- least four bytes whose id is not that of a termination, arrives after `k` turns of the poll function: it
  -- returns the result of the sending, with as much of the answer in the buffer as fits and with the rest of
  -- the state as it was when the answer arrived. Fuel for two more looks than `k` is enough.
  pub rpc_send-answered :
      (fuel k : ℕ) (rpc : Rpc) (w w1 w' : W) (req buf answer : List ℕ) (ret id : ℕ) (rest : List ℕ)
      → k + 2 ≤ fuel
      → ops.send w req ≡ (ret, w1)
      → is_negative ret ≡ false
      → Arrives k w1 answer w'
      → take_u32 answer ≡ some (id, rest)
      → id ≢ term_id
      → rpmsg_rpc_send ops fuel (some rpc) w req (some buf)
        ≡ some (ret, some (record rpc { respbuf = some (overlay buf answer); nacked = true }), w')
  unfolding rpmsg_rpc_send
  rpc_send-answered fuel k rpc w w1 w' req buf answer ret id rest le sent ok arrives parsed alive =
      ground
        (arith, sent, ok, wait_ack-one fuel k rpc buf w1 w' answer id rest le arrives parsed alive)
