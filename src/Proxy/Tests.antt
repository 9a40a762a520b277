-- ===== src/Proxy/Tests.antt =====
-- The theorems of the remote procedure calls applied to a host with one file, which is read from its start and
-- written at its end, and to memory whose bytes are the remainders of their addresses by 256.
use openamp.Base.{
  ℕ, ◌+◌, ◌%◌, ◌≡◌, refl, true, false, none, some, List, [], ◌∷◌, ◌++◌, arith, length, take, ◌==◌,
  if◌then◌else◌,
}
use openamp.Proxy.{max_buf_len, uninit, overlay}
use openamp.Proxy.Bytes.{length-uninit}
use openamp.Proxy.Retarget.{Rpc, RpcOps, message, rpmsg_rpc_send}
use openamp.Proxy.Retarget.Files.{sys_open, sys_read, sys_write}
use openamp.Proxy.Retarget.Wait.{rpc_send-answered}
use openamp.Proxy.Server.{Os}
use openamp.Proxy.Remote.{quiet, wired}
use openamp.Proxy.Remote.Write.{remote_write}
use openamp.Proxy.Remote.Read.{remote_read}
use openamp.Proxy.Remote.OpenClose.{remote_open}

abbrev one_file : Os (List ℕ)
one_file = record {
  os_open = λ file path flags mode. (3, file);
  os_close = λ file fd. (0, file);
  os_read = λ file fd count. (some (take count file), file);
  os_write = λ file fd bytes. (length bytes, file ++ bytes);
}

abbrev file : List ℕ
file = 1 ∷ 2 ∷ 3 ∷ []

abbrev any_byte : ℕ → ℕ
any_byte i = i % 256

abbrev buffer : List ℕ
buffer = uninit any_byte max_buf_len

abbrev rpc : Rpc
rpc = record { ept_destroyed = false; nacked = true; respbuf = none; lock = false }

-- The answer comes in the third turn.
abbrev slow : RpcOps ℕ
slow = record {
  send = λ w req. (length req, 0);
  destroy_ept = λ w. w;
  shutdown_cb = λ w. w;
  poll = λ w. (if w == 2 then message (some (4 ∷ 0 ∷ 0 ∷ 0 ∷ 7 ∷ [])) ∷ [] else [], w + 1);
}

rpc_send-answered_example :
    rpmsg_rpc_send slow 4 (some rpc) 9 (1 ∷ 2 ∷ []) (some (0 ∷ 0 ∷ 0 ∷ 0 ∷ 0 ∷ 0 ∷ []))
    ≡ some (
      2,
      some (record rpc {
        respbuf = some (overlay (0 ∷ 0 ∷ 0 ∷ 0 ∷ 0 ∷ 0 ∷ []) (4 ∷ 0 ∷ 0 ∷ 0 ∷ 7 ∷ []));
      }),
      3,
    )
rpc_send-answered_example =
    rpc_send-answered slow 4 2 rpc 9 0 3 (1 ∷ 2 ∷ []) (0 ∷ 0 ∷ 0 ∷ 0 ∷ 0 ∷ 0 ∷ [])
      (4 ∷ 0 ∷ 0 ∷ 0 ∷ 7 ∷ []) 2 4 (7 ∷ []) (omega arith) refl refl (1, refl, (2, refl, refl)) refl
      (omega arith)

remote_write_example :
    (rpc' : Rpc) × (sys_write
        (wired one_file buffer)
        any_byte
        2
        (some rpc)
        (quiet file false 0)
        1
        (8 ∷ 9 ∷ [])
      ≡ some (2, some rpc', quiet (1 ∷ 2 ∷ 3 ∷ 8 ∷ 9 ∷ []) false 0))
remote_write_example =
    remote_write one_file buffer (length-uninit any_byte max_buf_len) file false 0 any_byte 2 rpc 1
      (8 ∷ 9 ∷ []) (omega arith) (omega arith) (omega arith) (omega arith)

remote_read_example :
    (rpc' : Rpc) × (sys_read
        (wired one_file buffer)
        any_byte
        2
        (some rpc)
        (quiet file false 0)
        3
        (some (0 ∷ 0 ∷ []))
      ≡ some (2, some (overlay (0 ∷ 0 ∷ []) (1 ∷ 2 ∷ [])), some rpc', quiet file false 0))
remote_read_example =
    remote_read one_file buffer (length-uninit any_byte max_buf_len) file file false 0 any_byte 2
      rpc (omega arith) 3 (0 ∷ 0 ∷ []) (some (1 ∷ 2 ∷ [])) (omega arith) (omega arith) (omega arith)
      refl (omega arith)

remote_open_example :
    (rpc' : Rpc) × (sys_open
        (wired one_file buffer)
        any_byte
        2
        (some rpc)
        (quiet file false 0)
        (some (97 ∷ 98 ∷ []))
        0
        1
      ≡ some (3, some rpc', quiet file false 0))
remote_open_example =
    remote_open one_file buffer (length-uninit any_byte max_buf_len) file false 0 any_byte 2 rpc
      (omega arith) (97 ∷ 98 ∷ []) 0 1 (omega arith, (omega arith, tt)) (omega arith) (omega arith)
      (omega arith) (omega arith)
