-- ===== src/Proxy/Remote.antt =====
-- lib/proxy/rpmsg_retarget.c and apps/examples/rpc_demo/rpc_demod.c joined: a client and a server whose messages
-- arrive in the order in which they were sent. One turn of the client's `poll` lets the server take one request.
mod Answer
pub mod Write
pub mod Read
pub mod OpenClose
use openamp.Base.{ℕ, Bool, Option, none, some, List, [], ◌∷◌, ◌++◌, length, map}
use openamp.Proxy.Retarget.{Event, message, RpcOps}
use openamp.Proxy.Server.{Os, Host, App, rpmsg_endpoint_cb}

-- The server, whose link is the list of the messages that it has sent and the client has not received, and the
-- requests that wait for it.
pub record Wire (F : Type 0) : Type 0 where
  pub app : App F (List (List ℕ))
  pub requests : List (List ℕ)

-- `rpmsg_send` at the server: the message goes to the end of the link, and all of it was sent.
abbrev pub send_back : List (List ℕ) → List ℕ → ℕ × List (List ℕ)
send_back link bytes = (length bytes, link ++ (bytes ∷ []))

-- The server with its files, and nothing on the way in either direction.
abbrev pub quiet : {F : Type 0} → F → (stop : Bool) → (err_cnt : ℕ) → Wire F
quiet files stop err_cnt = record {
  app = record {
    request_termination = stop;
    err_cnt = err_cnt;
    host = record { files = files; link = [] };
  };
  requests = [];
}

module _ {F : Type 0} (os : Os F) (stack : List ℕ) where
  -- The server takes the request, and the client gets what it has sent. A server that has failed sends nothing.
  pub serve : Wire F → (req : List ℕ) → (requests : List (List ℕ)) → List Event × Wire F
  serve w req requests = elim (rpmsg_endpoint_cb os send_back stack w.app req) [
    | none ↦ ([], record w { requests = requests })
    | some app ↦ (
      map (λ bytes. message (some bytes)) app.host.link,
      record { app = record app { host = record app.host { link = [] } }; requests = requests },
    )
  ]

  pub turn : Wire F → List (List ℕ) → List Event × Wire F
  unfolding serve
  turn w [] = ([], w)
  turn w (req ∷ requests) = serve w req requests

  abbrev pub wired : RpcOps (Wire F)
  unfolding turn
  wired = record {
    send = λ w req. (length req, record w { requests = w.requests ++ (req ∷ []) });
    destroy_ept = λ w. w;
    shutdown_cb = λ w. w;
    poll = λ w. turn w w.requests;
  }
