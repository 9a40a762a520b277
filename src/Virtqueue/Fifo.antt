-- ===== src/Virtqueue/Fifo.antt =====
-- lib/virtio/virtqueue.c: the available and the used ring as queues. Both are arrays of a power of
-- two of entries under free-running 16-bit indices.
use native.Mathlib.Nat.{mod-mod_of_dvd, mod-add-mod, mod-eq_of_lt, mod-lt, mod-eq-sub-mod, pow-suc}
use native.Mathlib.Nat.{add-zero, add-suc, dvd-mul_right}
use native.Mathlib.Decide.{dec_lt}
use Prim.Native.Nat.{◌∣◌}
use openamp.Base.{
  ℕ, zero, suc, ◌+◌, ◌-◌, ◌*◌, ◌%◌, ◌^◌, ◌≤◌, ◌<◌, ◌≡◌, ◌≢◌, ◌∙◌, refl, ap, ap₂, sym, subst, false,
  List, [], ◌∷◌, ◌++◌, arith, ◌==◌, length,
}
use openamp.Base.Array.{update}
use openamp.Vring.{add16}

pow-mul : (k j : ℕ) → 2 ^ k * 2 ^ j ≡ 2 ^ (k + j)
pow-mul k zero = rw add-zero (omega arith)
pow-mul k (suc j) =
    rw (add-suc, pow-suc) (omega (arith, ap (λ m. m * 2) (pow-mul k j), pow-suc 2 j))

fill : (k : ℕ) → k ≤ 15 → k + (16 - k) ≡ 16
fill k h = omega arith

-- A ring's size divides the range of the indices, so that masking and wrapping agree.
pub index_wrap : (a k n : ℕ) → k ≤ 15 → n ≡ 2 ^ k → a % 2 ^ 16 % n ≡ a % n
index_wrap a k n h e =
    mod-mod_of_dvd n a (subst (λ m. n ∣ m) whole (dvd-mul_right n (2 ^ (16 - k))))
  where
    whole : n * 2 ^ (16 - k) ≡ 2 ^ 16
    whole = rw e (pow-mul k (16 - k) ∙ ap (λ m. 2 ^ m) (fill k h))

-- Fewer steps than the size do not come back to the same slot.
pub slot-ne : (s c n : ℕ) → 0 < c → c < n → (s + c) % n ≢ s % n
slot-ne s c n h k e =
    let r = s % n in
    let lt : r < n = mod-lt s (omega arith) in
    let same : (r + c) % n ≡ r = mod-add-mod s n c ∙ e in
    elim (dec_lt (r + c) n) [
      | yes p ↦ omega (arith, mod-eq_of_lt p)
      | no p ↦ omega (
        arith,
        mod-eq-sub-mod {n = r + c} {m = n} (omega arith),
        mod-eq_of_lt {n = r + c - n} {m = n} (omega arith),
      )
    ]

regroup : (s c : ℕ) → s + suc c ≡ s + 1 + c
regroup s c = omega arith

module _ {ℓ} {A : Type ℓ} where
  -- The entries of a ring of `n` slots from the index `s` on.
  abbrev pub window : (ring : ℕ → A) → (n s count : ℕ) → List A
  window ring n s zero = []
  window ring n s (suc c) = ring (s % n) ∷ window ring n (add16 s 1) c

  pub length-window : (ring : ℕ → A) (n s c : ℕ) → length (window ring n s c) ≡ c
  length-window ring n s zero = refl
  length-window ring n s (suc c) = ap suc (length-window ring n (add16 s 1) c)

  -- A write to the slot behind a window that does not fill the ring appends to the window, also
  -- where the index wraps at 2 ^ 16.
  pub window-push :
      (ring : ℕ → A) (n k s i c : ℕ) (v : A)
      → k ≤ 15
      → n ≡ 2 ^ k
      → i % n ≡ (s + c) % n
      → c < n
      → window (update ring (i % n) v) n s (suc c) ≡ window ring n s c ++ (v ∷ [])
  window-push ring n k s i zero v h e at lt =
      let same : s % n ≡ i % n = sym (rw add-zero at at) in ground (arith, same)
  window-push ring n k s i (suc c) v h e at lt =
      let ne : (s % n == i % n) ≡ false = ground (arith, slot-ne s (suc c) n (omega arith) lt) in
      ap₂ ◌∷◌ (rw ne) (window-push ring n k (add16 s 1) i c v h e (at ∙ shift) (omega arith))
    where
      shift : (s + suc c) % n ≡ (add16 s 1 + c) % n
      shift =
          ap (λ m. m % n) (regroup s c)
          ∙ sym (mod-add-mod (s + 1) n c)
          ∙ ap (λ m. (m + c) % n) (sym (index_wrap (s + 1) k n h e))
          ∙ mod-add-mod (add16 s 1) n c
