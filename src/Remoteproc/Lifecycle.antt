-- ===== src/Remoteproc/Lifecycle.antt =====
-- lib/remoteproc/remoteproc.c: `remoteproc_config`, `remoteproc_start`, `remoteproc_stop`,
-- `remoteproc_shutdown` and `remoteproc_remove`.
--
-- Each call holds the lock of the remote processor from end to end, so it is one step.
pub mod Order
pub mod Failure
use openamp.Base.{ℕ, Bool, true, false, not, ◌&&◌, Option, none, some, if◌then◌else◌}
use openamp.Base.Int.{ℤ, pos, negsuc, is_zero}
use openamp.Remoteproc.{
  Remoteproc, RemoteprocState, offline, configured, ready, running, suspended, error, stopped,
  einval, enodev, eagain,
}

-- The functions of `struct remoteproc_ops` that these calls use; `none` is NULL. `start` and `remove`
-- are called without a test.
pub record LifeOps (P : Type 0) : Type 0 where
  pub config : Option (P → (arg : ℕ) → ℤ × P)
  pub start : P → ℤ × P
  pub stop : Option (P → ℤ × P)
  pub shutdown : Option (P → ℤ × P)
  pub remove : P → P

-- `rproc->state == …`, as tests
abbrev pub is_offline : RemoteprocState → Bool
is_offline offline = true
is_offline _ = false

abbrev pub is_ready : RemoteprocState → Bool
is_ready ready = true
is_ready _ = false

abbrev pub is_stopped : RemoteprocState → Bool
is_stopped stopped = true
is_stopped _ = false

module _ {P : Type 0} (ops : LifeOps P) where
  -- The calls of a function that may be NULL, with the result in that case.
  abbrev pub call_config : (arg : ℕ) → P → ℤ × P
  call_config arg p = elim ops.config [ none ↦ (pos 0, p) | some f ↦ f p arg ]

  abbrev pub call_stop : (null : ℤ) → P → ℤ × P
  call_stop null p = elim ops.stop [ none ↦ (null, p) | some f ↦ f p ]

  abbrev pub call_shutdown : P → ℤ × P
  call_shutdown p = elim ops.shutdown [ none ↦ (pos 0, p) | some f ↦ f p ]

module _ {B P : Type 0} where
  -- The tests for NULL: `enodev`, and `einval` for the removal.
  abbrev pub on_rproc :
      (null : ℤ)
      → (Remoteproc B → P → ℤ × Remoteproc B × P)
      → Option (Remoteproc B)
      → P
      → ℤ × Option (Remoteproc B) × P
  on_rproc null f none p = (null, none, p)
  on_rproc null f (some rproc) p = let (ret, rproc', p') = f rproc p in (ret, some rproc', p')

module _ {B P : Type 0} (ops : LifeOps P) where
  pub config : (arg : ℕ) → Remoteproc B → P → ℤ × Remoteproc B × P
  config arg rproc p =
      if is_offline rproc.state
      then (let (ret, p') = call_config ops arg p in (ret, record rproc { state = ready }, p'))
      else (einval, rproc, p)

  pub start : Remoteproc B → P → ℤ × Remoteproc B × P
  start rproc p =
      if is_ready rproc.state
      then (let (ret, p') = ops.start p in (ret, record rproc { state = running }, p'))
      else (einval, rproc, p)

  pub stop : Remoteproc B → P → ℤ × Remoteproc B × P
  stop rproc p =
      if not (is_stopped rproc.state) && not (is_offline rproc.state)
      then (let (ret, p') = call_stop ops enodev p in (ret, record rproc { state = stopped }, p'))
      else (pos 0, rproc, p)

  -- The second half of `remoteproc_shutdown`, with the result of the first.
  pub shut_down : Remoteproc B → ℤ × P → ℤ × Remoteproc B × P
  shut_down rproc (ret, p) =
      if is_zero ret
      then (let (ret', p') = call_shutdown ops p in
          (ret', (if is_zero ret' then record rproc { state = offline } else rproc), p'))
      else (ret, rproc, p)

  pub shutdown : Remoteproc B → P → ℤ × Remoteproc B × P
  unfolding shut_down
  shutdown rproc p =
      if is_offline rproc.state
      then (pos 0, rproc, p)
      else shut_down rproc (if is_stopped rproc.state then (pos 0, p) else call_stop ops (pos 0) p)

  pub remove : Remoteproc B → P → ℤ × Remoteproc B × P
  remove rproc p =
      if is_offline rproc.state then (pos 0, rproc, ops.remove p) else (eagain, rproc, p)

  pub remoteproc_config : (arg : ℕ) → Option (Remoteproc B) → P → ℤ × Option (Remoteproc B) × P
  unfolding config
  remoteproc_config arg = on_rproc enodev (config arg)

  pub remoteproc_start : Option (Remoteproc B) → P → ℤ × Option (Remoteproc B) × P
  unfolding start
  remoteproc_start = on_rproc enodev start

  pub remoteproc_stop : Option (Remoteproc B) → P → ℤ × Option (Remoteproc B) × P
  unfolding stop
  remoteproc_stop = on_rproc enodev stop

  pub remoteproc_shutdown : Option (Remoteproc B) → P → ℤ × Option (Remoteproc B) × P
  unfolding shutdown
  remoteproc_shutdown = on_rproc enodev shutdown

  pub remoteproc_remove : Option (Remoteproc B) → P → ℤ × Option (Remoteproc B) × P
  unfolding remove
  remoteproc_remove = on_rproc einval remove
