-- ===== src/Rpmsg/Endpoint/Choose.antt =====
-- lib/rpmsg/rpmsg.c: the address that `rpmsg_create_ept` chooses.
use native.Mathlib.Decide.{ℕ_discrete, dec_lt}
use openamp.Base.{ℕ, ◌+◌, ◌-◌, ◌≤◌, ◌<◌, ◌≡◌, ◌≢◌, ◌⊎◌, inl, inr, refl, true, false, arith}
use openamp.Rpmsg.{
  MetalBitmap, IsBitmap, ok, err, RpmsgError, addr_any, addr_bmp_size, reserved_addresses,
}
use openamp.Rpmsg.Address.{rpmsg_get_address, rpmsg_set_address}
use openamp.Rpmsg.Address.Laws.{get_address_fresh, address_set_cases, set_bit}
use openamp.Rpmsg.Endpoint.{choose_address}
use openamp.Rpmsg.Endpoint.Registry.{Chosen}

-- Why no address was chosen for `src`.
abbrev pub Refused : {B : Type 0} → MetalBitmap B → B → (src : ℕ) → RpmsgError → Type 0
Refused m bitmap src c =
    ((src ≡ addr_any)
      × (c ≡ RpmsgError.addr)
      × ((i : ℕ) → i < addr_bmp_size → m.is_bit_set bitmap i ≡ true))
    ⊎ ((reserved_addresses ≤ src)
        × (c ≡ RpmsgError.addr)
        × (m.is_bit_set bitmap (src - reserved_addresses) ≡ true))
    ⊎ ((reserved_addresses + addr_bmp_size ≤ src) × (src ≢ addr_any) × (c ≡ RpmsgError.param))

-- The address that `src` asks for: for RPMSG_ADDR_ANY a dynamic one that was free and is marked now, and
-- else the given one.
abbrev pub Answers : {B : Type 0} → MetalBitmap B → B → (src a : ℕ) → B → Type 0
Answers m bitmap src a bitmap' =
    ((src ≡ addr_any)
      × ((i : ℕ) × (i < addr_bmp_size)
          × (a ≡ reserved_addresses + i)
          × (m.is_bit_set bitmap i ≡ false)
          × (m.is_bit_set bitmap' i ≡ true)))
    ⊎ ((src ≢ addr_any) × (a ≡ src))

module _ {B : Type 0} (m : MetalBitmap B) (law : IsBitmap m) where
  -- The choice of an address either succeeds, with the given address where one is given and else a
  -- dynamic one that was free, or is refused for one of three reasons.
  pub choose_address_cases :
      (bitmap : B) (src : ℕ)
      → ((a : ℕ) × (b : B) × (choose_address m bitmap src ≡ (ok 0, a, b))
          × Chosen m bitmap a b
          × Answers m bitmap src a b)
        ⊎ ((c : RpmsgError) × (a : ℕ) × (b : B) × (choose_address m bitmap src ≡ (err c, a, b))
            × Refused m bitmap src c)
  unfolding choose_address
  choose_address_cases bitmap src = elim (ℕ_discrete src addr_any) [
    | yes any ↦ elim (get_address_fresh m law bitmap addr_bmp_size (omega arith)) [
      | inl (i, lt, ea, clear, upd) ↦ inl (
        (rpmsg_get_address m bitmap addr_bmp_size).0,
        (rpmsg_get_address m bitmap addr_bmp_size).1,
        ground arith,
        inl (i, lt, ea, clear, upd),
        inl (any, (i, lt, ea, clear, ground (arith, upd i))),
      )
      | inr (ea, eb, full) ↦ inr (
        RpmsgError.addr,
        (rpmsg_get_address m bitmap addr_bmp_size).0,
        (rpmsg_get_address m bitmap addr_bmp_size).1,
        ground arith,
        inl (any, refl, full),
      )
    ]
    | no given ↦ elim (dec_lt src reserved_addresses) [
      | yes low ↦ inl (src, bitmap, ground arith, inr (low, refl), inr (given, refl))
      | no high ↦ elim (address_set_cases m law bitmap addr_bmp_size src) [
        | inl (e, lo, hi, clear) ↦ inl (
          src,
          (rpmsg_set_address m bitmap addr_bmp_size src).1,
          ground arith,
          inl (
            src - reserved_addresses,
            omega arith,
            omega arith,
            clear,
            λ j. set_bit m law bitmap addr_bmp_size src j lo hi,
          ),
          inr (given, refl),
        )
        | inr rest ↦ elim rest [
          | inl (e, lo, hi, set) ↦
              inr (RpmsgError.addr, src, bitmap, ground arith, inr (inl (lo, refl, set)))
          | inr (e, out) ↦
              inr
                (RpmsgError.param, src, bitmap, ground arith, inr (inr (omega arith, given, refl)))
        ]
      ]
    ]
  ]
