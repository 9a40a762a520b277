-- ===== src/Proxy/Remote/Answer.antt =====
-- lib/proxy/rpmsg_retarget.c: a call of `rpmsg_rpc_send` that the server answers with one message.
use openamp.Base.{
  ℕ, ◌+◌, ◌^◌, ◌≤◌, ◌<◌, ◌≡◌, ◌≢◌, refl, ap, ◌∙◌, Bool, false, true, some, List, [], ◌∷◌, ◌++◌,
  arith, length, take, drop, ltb,
}
use openamp.Proxy.{Syscall, max_buf_len, term_id, syscall_bytes, syscall_of, overlay, take_u32}
use openamp.Proxy.Bytes.{
  IsWords, length-syscall_bytes, length-uninit, take-all, take_u32-syscall, read_back,
  read_back_short,
}
use openamp.Proxy.Retarget.{Rpc, rpmsg_rpc_send}
use openamp.Proxy.Retarget.Wait.{rpc_send-answered}
use openamp.Proxy.Retarget.Files.{no_id, call}
use openamp.Proxy.Server.{Os, App, rpmsg_endpoint_cb, handle_rpc, reply}
use openamp.Proxy.Remote.{send_back, quiet, serve, turn, wired}

take_u32-reply :
    (id ret : ℕ) → id < 2 ^ 32 → (rest : List ℕ) × (take_u32 (reply id ret) ≡ some (id, rest))
unfolding syscall_bytes
take_u32-reply id ret h =
    take_u32-syscall (record { id = id; int_field1 = ret; int_field2 = 0; data_len = 0 }) [] h

module _ {F : Type 0} (os : Os F) (stack : List ℕ) (files files' : F) (stop : Bool)
    (err_cnt : ℕ) where
  -- The server with one answer sent.
  abbrev pub answering : (answer : List ℕ) → App F (List (List ℕ))
  answering answer = record {
    request_termination = stop;
    err_cnt = err_cnt;
    host = record { files = files'; link = answer ∷ [] };
  }

  -- One turn, and the wait is over.
  pub send-answered :
      (fuel : ℕ) (rpc : Rpc) (req buf answer : List ℕ) (id : ℕ) (rest : List ℕ)
      → 2 ≤ fuel
      → length req < 2 ^ 31
      → rpmsg_endpoint_cb os send_back stack (quiet files stop err_cnt).app req
        ≡ some (answering answer)
      → take_u32 answer ≡ some (id, rest)
      → id ≢ term_id
      → rpmsg_rpc_send (wired os stack) fuel (some rpc) (quiet files stop err_cnt) req (some buf)
        ≡ some (
          length req,
          some (record rpc { respbuf = some (overlay buf answer); nacked = true }),
          quiet files' stop err_cnt,
        )
  unfolding turn serve
  send-answered fuel rpc req buf answer id rest le small served parsed alive =
      rpc_send-answered (wired os stack) fuel 0 rpc (quiet files stop err_cnt)
        (record (quiet files stop err_cnt) { requests = req ∷ [] }) (quiet files' stop err_cnt) req
        buf answer (length req) id rest (omega arith) refl (ground arith) (ground (arith, served))
        parsed alive

  -- A call that is answered with the result of a system call returns that result.
  pub call-answered :
      (garbage : ℕ → ℕ) (fuel : ℕ) (rpc : Rpc) (req : List ℕ) (id ret : ℕ)
      → 2 ≤ fuel
      → length req < 2 ^ 31
      → id < term_id
      → ret < 2 ^ 32
      → rpmsg_endpoint_cb os send_back stack (quiet files stop err_cnt).app req
        ≡ some (answering (reply id ret))
      → (rpc' : Rpc) × (call
            (wired os stack)
            garbage
            fuel
            (some rpc)
            (quiet files stop err_cnt)
            req
            id
          ≡ some (ret, some rpc', quiet files' stop err_cnt))
  unfolding call
  call-answered garbage fuel rpc req id ret le small known word served =
      let s : Syscall = record { id = id; int_field1 = ret; int_field2 = 0; data_len = 0 } in
      let w : IsWords s = record {
        id = omega arith;
        int_field1 = word;
        int_field2 = omega arith;
        data_len = omega arith;
      } in
      let buf = no_id garbage 12 in
      let size : length buf ≡ 16 = omega (arith, length-uninit garbage 12) in
      let (rest, parsed) = take_u32-reply id ret (omega arith) in
      let sent =
        send-answered fuel rpc req buf (reply id ret) id rest le small served parsed
          (omega arith) in
      let back = read_back_short buf s (omega arith) w in
      (
        record rpc { respbuf = some (overlay buf (reply id ret)); nacked = true },
        ground (arith, sent, back),
      )

-- What the server reads out of a request.
pub request_read :
    (stack : List ℕ) (s : Syscall) (payload : List ℕ)
    → length stack ≡ max_buf_len
    → length payload ≤ 480
    → IsWords s
    → syscall_of (overlay stack (take max_buf_len (syscall_bytes s ++ payload)))
      ≡ some (s, payload ++ drop (16 + length payload) stack)
request_read stack s payload size fits w =
    let all : length (syscall_bytes s ++ payload) ≡ 16 + length payload =
      length-syscall_bytes s payload in
    ap (λ bs. syscall_of (overlay stack bs))
      (take-all max_buf_len (syscall_bytes s ++ payload) (omega (arith, all)))
    ∙ read_back stack s payload (omega arith) w

pub length-reply : (id ret : ℕ) → length (reply id ret) ≡ 16
unfolding syscall_bytes
length-reply id ret = refl

-- A request that its handler accepts.
pub served :
    {F : Type 0} (os : Os F) (stack : List ℕ) (files files' : F) (stop : Bool) (err_cnt : ℕ)
    (s : Syscall) (payload answer : List ℕ)
    → length stack ≡ max_buf_len
    → length payload ≤ 480
    → IsWords s
    → handle_rpc os send_back
        (quiet files stop err_cnt).app.host
        s
        (payload ++ drop (16 + length payload) stack)
      ≡ some (0, false, record { files = files'; link = answer ∷ [] })
    → rpmsg_endpoint_cb os send_back stack
        (quiet files stop err_cnt).app
        (syscall_bytes s ++ payload)
      ≡ some (answering os stack files files' stop err_cnt answer)
unfolding rpmsg_endpoint_cb
served os stack files files' stop err_cnt s payload answer size fits w handled =
    let long : ltb (length (syscall_bytes s ++ payload)) 16 ≡ false =
      ground (arith, length-syscall_bytes s payload) in
    rw (long, request_read stack s payload size fits w, handled) refl
