-- ===== src/Remoteproc/Lifecycle/Failure.antt =====
-- lib/remoteproc/remoteproc.c: what the calls of the life cycle do where the platform reports a failure.
use openamp.Base.{ℕ, ◌≡◌, some, arith}
use openamp.Base.Int.{ℤ, pos, negsuc}
use openamp.Remoteproc.{Remoteproc, offline, running}
use openamp.Remoteproc.Lifecycle.{LifeOps, config, start, shutdown, shut_down}

module _ {B P : Type 0} (ops : LifeOps P) (rproc : Remoteproc B) (p p' : P) (n : ℕ) where
  -- Where the platform's `config` fails, `remoteproc_config` returns its error code but leaves the remote
  -- processor ready: the next `remoteproc_start` calls the platform's `start` and returns its result, and
  -- the remote processor counts as running, whatever that result is.
  pub failed_config_starts :
      (f : P → (arg : ℕ) → ℤ × P) (arg : ℕ)
      → rproc.state ≡ offline
      → ops.config ≡ some f
      → f p arg ≡ (negsuc n, p')
      → let r = config ops arg rproc p in
        (r.0 ≡ negsuc n)
        × (start ops r.1 r.2
            ≡ ((ops.start p').0, record rproc { state = running }, (ops.start p').1))
  unfolding config start
  failed_config_starts f arg e ec ef = ground (arith, e, ec, ef)

  -- Where `stop` succeeds and `shutdown` fails, `remoteproc_shutdown` returns the error code and leaves
  -- the state as it was, so that a running remote processor, which is stopped by then, still counts as
  -- running and the next shutdown stops it again.
  pub failed_shutdown_repeats :
      (f : P → ℤ × P) (g : P → ℤ × P) (q q' : P)
      → rproc.state ≡ running
      → ops.stop ≡ some f
      → ops.shutdown ≡ some g
      → f p ≡ (pos 0, p')
      → g p' ≡ (negsuc n, q)
      → f q ≡ (pos 0, q')
      → (shutdown ops rproc p ≡ (negsuc n, rproc, q))
        × (shutdown ops rproc q ≡ shut_down ops rproc (pos 0, q'))
  unfolding shutdown shut_down
  failed_shutdown_repeats f g q q' e es eg ef eh ek =
      (ground (arith, e, es, eg, ef, eh), ground (arith, e, es, ek))
