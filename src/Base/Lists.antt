-- ===== src/Base/Lists.antt =====
-- Lists measured, indexed and counted by native numbers, under the library's names.
use Prim.Native.Nat.{ℕ, zero, suc, ◌+◌, ◌-◌}
use mathlib.Core.Path.{◌≡◌}
use mathlib.Core.Logic.{◌↔◌}
use mathlib.Core.List.{List, [], ◌∷◌, ◌++◌}
use mathlib.Core.Option.{Option, none, some}
use native.Mathlib.Omega.{arith}
use openamp.Base.Tests.{◌==◌, if◌then◌else◌}

module _ {ℓ} {A : Type ℓ} where
  abbrev pub length : List A → ℕ
  length [] = 0
  length (x ∷ xs) = suc (length xs)

  abbrev pub get_elem? : List A → ℕ → Option A
  get_elem? [] i = none
  get_elem? (x ∷ xs) zero = some x
  get_elem? (x ∷ xs) (suc i) = get_elem? xs i

  abbrev pub take : ℕ → List A → List A
  take zero xs = []
  take (suc n) [] = []
  take (suc n) (x ∷ xs) = x ∷ take n xs

  abbrev pub drop : ℕ → List A → List A
  drop zero xs = xs
  drop (suc n) [] = []
  drop (suc n) (x ∷ xs) = drop n xs

  abbrev pub All {κ} : (A → Type κ) → List A → Type κ
  All P [] = Unit
  All P (x ∷ xs) = P x × All P xs

  abbrev pub concat : List (List A) → List A
  concat [] = []
  concat (x ∷ xs) = x ++ concat xs

  pub length-append : (xs ys : List A) → length (xs ++ ys) ≡ length xs + length ys
  length-append [] ys = omega arith
  length-append (x ∷ xs) ys = omega (arith, length-append xs ys)

  pub length-drop : (n : ℕ) (xs : List A) → length (drop n xs) ≡ length xs - n
  length-drop zero xs = omega arith
  length-drop (suc n) [] = omega arith
  length-drop (suc n) (x ∷ xs) = omega (arith, length-drop n xs)

  pub All-append {κ} : (P : A → Type κ) (xs ys : List A) → (All P xs × All P ys) ↔ All P (xs ++ ys)
  All-append P [] ys = (λ h. h.1, λ h. (tt, h))
  All-append P (x ∷ xs) ys =
      let rest = All-append P xs ys in
      (λ h. (h.0.0, rest.0 (h.0.1, h.1)), λ h. ((h.0, (rest.1 h.1).0), (rest.1 h.1).1))

  pub All-map {κ μ} :
      (P : A → Type κ) (Q : A → Type μ) (xs : List A) → ((x : A) → P x → Q x) → All P xs → All Q xs
  All-map P Q [] f h = tt
  All-map P Q (x ∷ xs) f h = (f x h.0, All-map P Q xs f h.1)

-- How often a number stands in a list.
abbrev pub count : ℕ → List ℕ → ℕ
count a [] = 0
count a (x ∷ xs) = (if a == x then 1 else 0) + count a xs

pub count-append : (i : ℕ) (l r : List ℕ) → count i (l ++ r) ≡ count i l + count i r
count-append i [] r = omega arith
count-append i (j ∷ l) r = omega (arith, count-append i l r)

pub count-take-drop :
    (a n : ℕ) (xs : List ℕ) → count a (take n xs) + count a (drop n xs) ≡ count a xs
count-take-drop a zero xs = omega arith
count-take-drop a (suc n) [] = omega arith
count-take-drop a (suc n) (x ∷ xs) = omega (arith, count-take-drop a n xs)

pub count-concat :
    (a : ℕ) (xs ys : List (List ℕ))
    → count a (concat (xs ++ ys)) ≡ count a (concat xs) + count a (concat ys)
count-concat a [] ys = omega arith
count-concat a (x ∷ xs) ys = omega (
  arith,
  count-concat a xs ys,
  count-append a x (concat (xs ++ ys)),
  count-append a x (concat xs),
)

pub length-concat :
    (xs ys : List (List ℕ)) → length (concat (xs ++ ys)) ≡ length (concat xs) + length (concat ys)
length-concat [] ys = omega arith
length-concat (x ∷ xs) ys =
    omega
      (arith, length-concat xs ys, length-append x (concat (xs ++ ys)), length-append x (concat xs))
