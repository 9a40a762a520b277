-- ===== src/Vring/Event.antt =====
-- lib/include/openamp/virtio_ring.h: what `vring_need_event` decides.
use openamp.Base.{ℕ, ◌+◌, ◌%◌, ◌^◌, ◌<◌, ◌≡◌, ◌↔◌, true, arith}
use openamp.Vring.{vring_need_event}

-- The other side asked for an event when the index passes `event_idx`, given as `d` steps behind
-- `old` modulo 2 ^ 16; `n` entries were published since `old`, so the new index is `old + n`. The
-- test holds exactly when the entry numbered `event_idx` is one of these `n`, also where the 16-bit
-- indices wrap in between.
pub need_event_iff :
    (old n d : ℕ)
    → old < 2 ^ 16
    → n < 2 ^ 16
    → d < 2 ^ 16
    → (vring_need_event ((old + d) % 2 ^ 16) ((old + n) % 2 ^ 16) old ≡ true) ↔ (d < n)
unfolding vring_need_event
need_event_iff old n d ho hn hd = ground arith
