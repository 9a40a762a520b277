-- ===== src/Base/Array.antt =====
-- C arrays of a fixed size: the contents as a function of the index, every access checked against
-- the size. `none` is an access outside the array, which C leaves undefined.
use Prim.Native.Nat.{ℕ}
use std.Path.{◌≡◌, fun_ext}
use native.Mathlib.Omega.{arith}
use mathlib.Core.Option.{Option, none, some}
use openamp.Base.Tests.{ltb, ◌==◌, if◌then◌else◌}

module _ {ℓ} {A : Type ℓ} where
  abbrev pub update : (ℕ → A) → ℕ → A → ℕ → A
  update f i v j = if j == i then v else f j

  abbrev pub load : (size : ℕ) → (ℕ → A) → ℕ → Option A
  load size f i = if ltb i size then some (f i) else none

  abbrev pub store : (size : ℕ) → (ℕ → A) → ℕ → A → Option (ℕ → A)
  store size f i v = if ltb i size then some (update f i v) else none

  pub update-update : (f : ℕ → A) (i : ℕ) (x y : A) → update (update f i x) i y ≡ update f i y
  update-update f i x y = fun_ext (λ j. ground arith)
