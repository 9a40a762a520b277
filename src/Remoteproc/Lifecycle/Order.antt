-- ===== src/Remoteproc/Lifecycle/Order.antt =====
-- lib/remoteproc/remoteproc.c: in which order the calls of the life cycle, in any sequence, reach the
-- functions of the platform.
use openamp.Base.{
  ℕ, ◌≡◌, ◌≢◌, Bool, true, false, Option, none, some, List, [], ◌∷◌, arith, ◌>>=◌, if◌then◌else◌,
  Bool-cases, inl, inr,
}
use openamp.Base.Int.{ℤ, pos, is_zero}
use openamp.Remoteproc.{Remoteproc, RemoteprocState, offline, ready, running, stopped}
use openamp.Remoteproc.Lifecycle.{
  LifeOps, is_offline, is_ready, is_stopped, call_stop, call_config, call_shutdown, config, start,
  stop, shut_down, shutdown, remove,
}

-- What the platform was told, and whether a shutdown succeeded.
pub data Event : Type 0 where
  configures starts stops removes : Event
  shuts_down : (success : Bool) → Event

-- The platform's functions, with a log of their calls, the newest first. A `config` or `shutdown`
-- that is NULL is logged where the code passes it as a success.
abbrev pub logged : {P : Type 0} → LifeOps P → LifeOps (P × List Event)
logged ops = record {
  config = some (λ s arg. let (ret, p) = call_config ops arg s.0 in (ret, (p, configures ∷ s.1)));
  start = λ s. let (ret, p) = ops.start s.0 in (ret, (p, starts ∷ s.1));
  stop = elim ops.stop [
    | none ↦ none
    | some f ↦ some (λ s. let (ret, p) = f s.0 in (ret, (p, stops ∷ s.1)))
  ];
  shutdown =
      some
        (λ s. let (ret, p) = call_shutdown ops s.0 in (ret, (p, shuts_down (is_zero ret) ∷ s.1)));
  remove = λ s. (ops.remove s.0, removes ∷ s.1);
}

-- The platform's view of its life.
pub data Phase : Type 0 where
  off prepared started : Phase

abbrev pub next_phase : Phase → Event → Option Phase
next_phase off configures = some prepared
next_phase prepared starts = some started
next_phase prepared stops = some prepared
next_phase started stops = some started
next_phase prepared (shuts_down false) = some prepared
next_phase started (shuts_down false) = some started
next_phase prepared (shuts_down true) = some off
next_phase started (shuts_down true) = some off
next_phase off removes = some off
next_phase _ _ = none

-- The phase after a log; `none` where a call came out of order.
abbrev pub phase_of : List Event → Option Phase
phase_of [] = some off
phase_of (e ∷ log) = phase_of log >>= λ ph. next_phase ph e

-- The states that stand for a phase.
abbrev pub Stands : RemoteprocState → Phase → Type 0
Stands offline ph = ph ≡ off
Stands ready ph = ph ≡ prepared
Stands running ph = ph ≡ started
Stands stopped ph = ph ≢ off
Stands _ ph = ⊥

pub data Call : Type 0 where
  config_call : (arg : ℕ) → Call
  start_call stop_call shutdown_call remove_call : Call

module _ {B P : Type 0} (ops : LifeOps P) where
  abbrev pub call : Call → Remoteproc B → P → ℤ × Remoteproc B × P
  call (config_call arg) = config ops arg
  call start_call = start ops
  call stop_call = stop ops
  call shutdown_call = shutdown ops
  call remove_call = remove ops

  abbrev pub run : List Call → Remoteproc B → P → Remoteproc B × P
  run [] rproc p = (rproc, p)
  run (c ∷ cs) rproc p = let (ret, rproc', p') = call c rproc p in run cs rproc' p'

abbrev pub InOrder : RemoteprocState → List Event → Type 0
InOrder state log = (ph : Phase) × (phase_of log ≡ some ph) × Stands state ph

-- The state and the log after a step.
abbrev After : {B P : Type 0} → ℤ × Remoteproc B × (P × List Event) → Type 0
After (ret, rproc, s) = InOrder rproc.state s.1

module _ {B P : Type 0} (ops : LifeOps P) (rproc : Remoteproc B) (p : P) (log : List Event)
    (h : InOrder rproc.state log) where
  shut_down-InOrder :
      (r : ℤ × (P × List Event))
      → InOrder rproc.state r.1.1
      → rproc.state ≢ offline
      → After (shut_down (logged ops) rproc r)
  unfolding shut_down
  shut_down-InOrder (ret, (p', log')) h' on = elim (Bool-cases (is_zero ret)) [
    | inl e ↦ elim (Bool-cases (is_zero (call_shutdown ops p').0)) [
      | inl e' ↦ (off, ground arith, ground arith)
      | inr e' ↦ (h'.0, ground arith, ground arith)
    ]
    | inr e ↦ (h'.0, ground arith, ground arith)
  ]

  call-InOrder : (c : Call) → After (call (logged ops) c rproc (p, log))
  unfolding config start stop shutdown remove
  call-InOrder (config_call arg) = elim (Bool-cases (is_offline rproc.state)) [
    | inl e ↦ (prepared, ground arith, ground arith)
    | inr e ↦ (h.0, ground arith, ground arith)
  ]
  call-InOrder start_call = elim (Bool-cases (is_ready rproc.state)) [
    | inl e ↦ (started, ground arith, ground arith)
    | inr e ↦ (h.0, ground arith, ground arith)
  ]
  call-InOrder stop_call = ground arith
  call-InOrder shutdown_call = elim (Bool-cases (is_offline rproc.state)) [
    | inl e ↦ rw e h
    | inr e ↦ rw e (shut_down-InOrder first (stopping e) (ground arith))
  ]
    where
      first : ℤ × (P × List Event)
      first =
          if is_stopped rproc.state
          then (pos 0, (p, log))
          else call_stop (logged ops) (pos 0) (p, log)

      stopping : is_offline rproc.state ≡ false → InOrder rproc.state first.1.1
      stopping e = (h.0, ground arith, ground arith)
  call-InOrder remove_call = ground arith

-- In any sequence of calls on a remote processor that starts offline, whatever the functions of the
-- platform return, they are reached in order: `start` only after a `config` and only once until a
-- shutdown succeeds, `stop` and `shutdown` only after a `config` and before a shutdown succeeds,
-- `config` and `remove` only at first or after a shutdown succeeded; and the state stands for the phase
-- that this order gives.
pub run-InOrder :
    {B P : Type 0}
    → (ops : LifeOps P) (cs : List Call) (rproc : Remoteproc B) (p : P) (log : List Event)
    → InOrder rproc.state log
    → let r = run (logged ops) cs rproc (p, log) in InOrder r.0.state r.1.1
run-InOrder ops [] rproc p log h = h
run-InOrder ops (c ∷ cs) rproc p log h =
    let r = call (logged ops) c rproc (p, log) in
    run-InOrder ops cs r.1 r.2.0 r.2.1 (call-InOrder ops rproc p log h c)
