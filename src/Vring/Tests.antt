-- ===== src/Vring/Tests.antt =====
-- The theorems of the split ring applied to a ring of 256 descriptors and to wrapping indices.
use openamp.Base.{◌+◌, ◌*◌, ◌%◌, ◌^◌, ◌≤◌, ◌<◌, ◌≡◌, ◌↔◌, true, arith}
use openamp.Vring.{vring_need_event, vring_size, vring_init}
use openamp.Vring.Event.{need_event_iff}
use openamp.Vring.Layout.{layout_fits}

need_event_iff_example : (vring_need_event 1 3 65534 ≡ true) ↔ (3 < 5)
need_event_iff_example = need_event_iff 65534 5 3 (omega arith) (omega arith) (omega arith)

layout_fits_example :
    let l = vring_init 256 (4096 * 3) 4096 in
    (l.desc_at ≡ 4096 * 3)
    × (l.desc_at + 4096 ≤ l.avail_at)
    × (l.avail_at + 4 + 512 + 2 ≤ l.used_at)
    × (l.used_at % 4096 ≡ 0)
    × (l.used_at + 4 + 2048 + 2 ≡ 4096 * 3 + vring_size 256 4096)
    × (vring_size 256 4096 < 2 ^ 31)
layout_fits_example = layout_fits 256 3 12 (omega arith) (omega arith)
