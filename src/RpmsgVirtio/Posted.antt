-- ===== src/RpmsgVirtio/Posted.antt =====
-- lib/rpmsg/rpmsg_virtio.c: a descriptor through which a master hands one buffer to the other side.
use openamp.Base.{ℕ, ◌+◌, ◌^◌, ◌<◌, ◌≡◌, ap, subst, ◌∙◌, sym, Bool, [], ◌∷◌, arith}
use mathlib.Core.Option.{some-injective}
use openamp.Virtqueue.{Virtqueue, VirtqueueBuf, ShmIo}
use openamp.Virtqueue.Driver.{desc_flags}
use openamp.Virtqueue.Driver.Chain.{Filled}
use openamp.Virtqueue.Driver.Add.{added}
use openamp.Vring.{VringDesc}

-- Descriptor `x` holds the buffer at `addr`, of `len` bytes, with these flags; the address is the
-- cookie that comes back with it.
pub record HasBuffer (io : ShmIo) (vq : Virtqueue) (x addr len flags : ℕ) : Type 0 where
  pub addr_is : (vq.vring.desc x).addr ≡ io.virt_to_phys addr
  pub len_is : (vq.vring.desc x).len ≡ len
  pub flags_is : (vq.vring.desc x).flags ≡ flags
  pub cookie_is : (vq.descx x).cookie ≡ addr

-- The same entries hold the same buffer.
pub HasBuffer-same :
    (io : ShmIo) (vq vq' : Virtqueue) {x addr len flags : ℕ}
    → vq'.vring.desc x ≡ vq.vring.desc x
    → vq'.descx x ≡ vq.descx x
    → HasBuffer io vq x addr len flags
    → HasBuffer io vq' x addr len flags
HasBuffer-same io vq vq' ed ex h = record {
  addr_is = ap (λ d. d.addr) ed ∙ h.addr_is;
  len_is = ap (λ d. d.len) ed ∙ h.len_is;
  flags_is = ap (λ d. d.flags) ed ∙ h.flags_is;
  cookie_is = ap (λ d. d.cookie) ex ∙ h.cookie_is;
}

pub HasBuffer-at :
    (io : ShmIo) (vq : Virtqueue) {x y a b len flags : ℕ}
    → x ≡ y
    → a ≡ b
    → HasBuffer io vq x a len flags
    → HasBuffer io vq y b len flags
HasBuffer-at io vq {x = x} {b = b} {len = len} {flags = flags} ex ea h =
    subst (λ r. HasBuffer io vq r b len flags) ex (subst (λ r. HasBuffer io vq x r len flags) ea h)

-- A request of one buffer puts it into the first free descriptor.
pub added-HasBuffer :
    (dbg : Bool) (io : ShmIo) (vq : Virtqueue) (d : ℕ → VringDesc)
    (idx x addr len readable writable : ℕ)
    → len < 2 ^ 32
    → vq.desc_head_idx ≡ x
    → Filled io (record { buf = addr; len = len } ∷ []) readable (readable + writable) 0 d (x ∷ [])
    → HasBuffer io
        (added dbg io (record { buf = addr; len = len } ∷ []) readable writable addr vq d idx)
        x
        addr
        len
        (desc_flags 0 readable (readable + writable))
added-HasBuffer dbg io vq d idx x addr len readable writable lt head ((b, eb, ea, el, ef), _) =
    let same : record { buf = addr; len = len } ≡ b = some-injective _ b eb in
    record {
      addr_is = ea ∙ sym (ap (λ (c : VirtqueueBuf). io.virt_to_phys c.buf) same);
      len_is = omega (arith, el, ap (λ (c : VirtqueueBuf). c.len) same);
      flags_is = ef;
      cookie_is = ground (arith, head);
    }
