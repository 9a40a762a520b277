-- ===== src/Remoteproc/RscTable.antt =====
-- lib/remoteproc/rsc_table_parser.c and the packed structs of remoteproc.h: the resource table of a
-- firmware.
--
-- The table is `size` bytes of memory; an access outside them is `none`. Fields are read and written low
-- byte first. `io` is the region that `handle_rsc_table` checks entries against, as the test whether it
-- has the address of an offset, `none` for NULL. The number of entries is read once: the code reads it
-- again in each round, which differs only for an entry that overlaps the header.
pub mod Find
pub mod Vdev
use openamp.Base.{
  ℕ, zero, suc, ◌+◌, ◌-◌, ◌*◌, ◌/◌, ◌%◌, ◌^◌, Bool, true, false, not, ◌&&◌, ◌||◌, Option, none,
  some, ltb, leb, ◌==◌, if◌then◌else◌, ◌>>=◌, ◌>>◌,
}
use openamp.Base.Array.{update, load}
use openamp.Base.Int.{ℤ, pos, negsuc, is_zero}
use openamp.Rpmsg.{MetalBitmap, u32_of}
use openamp.Remoteproc.{
  Remoteproc, einval, rsc_tab_trunc, rsc_tab_ver, rsc_tab_rsvd, rsc_tab_ns, notify_id_any,
}
use openamp.Remoteproc.Memory.{MetalIo, Mmap, remoteproc_mmap}
use openamp.Remoteproc.Ids.{remoteproc_allocate_id}

abbrev pub read32 : (size : ℕ) → (ℕ → ℕ) → (off : ℕ) → Option ℕ
read32 size table off =
    if leb (off + 4) size
    then some (u32_of (table off) (table (off + 1)) (table (off + 2)) (table (off + 3)))
    else none

abbrev pub put32 : (ℕ → ℕ) → (off value : ℕ) → ℕ → ℕ
put32 table off value =
    update
      (update (update (update table off (value % 256)) (off + 1) (value / 256 % 256)) (off + 2)
        (value / 2 ^ 16 % 256))
      (off + 3) (value / 2 ^ 24 % 256)

abbrev pub write32 : (size : ℕ) → (ℕ → ℕ) → (off value : ℕ) → Option (ℕ → ℕ)
write32 size table off value = if leb (off + 4) size then some (put32 table off value) else none

-- enum fw_resource_type, and RSC_TAB_SUPPORTED_VERSION, sizeof(struct resource_table) and
-- FW_RSC_U32_ADDR_ANY
abbrev pub rsc_last : ℕ
rsc_last = 4

abbrev pub rsc_vendor_start : ℕ
rsc_vendor_start = 128

abbrev pub rsc_vendor_end : ℕ
rsc_vendor_end = 512

abbrev pub supported_version : ℕ
supported_version = 1

abbrev pub sizeof_resource_table : ℕ
sizeof_resource_table = 16

abbrev pub u32_addr_any : ℕ
u32_addr_any = 2 ^ 32 - 1

-- What the handlers change: the table, the remote processor and the platform.
pub record RscState (B P : Type 0) : Type 0 where
  pub table : ℕ → ℕ
  pub rproc : Remoteproc B
  pub platform : P

-- `rproc->ops->handle_rsc`
abbrev pub HandleRsc : Type 0 → Type 0
HandleRsc P = P → (table : ℕ → ℕ) → (rsc len : ℕ) → ℤ × (ℕ → ℕ) × P

-- `find_rsc`: the loop at entry `i` with `left` entries to go, having passed `rsc_index` entries of the
-- type.
pub find_from : (size : ℕ) → (ℕ → ℕ) → (rsc_type index left i rsc_index : ℕ) → Option ℕ
find_from size table rsc_type index zero i rsc_index = some 0
find_from size table rsc_type index (suc left) i rsc_index = do
  off ← read32 size table (sizeof_resource_table + 4 * i)
  lrsc_type ← read32 size table off
  elim (lrsc_type == rsc_type && rsc_index == index) [
    | true ↦ some off
    | false ↦
        find_from size table rsc_type index left (i + 1)
          (if lrsc_type == rsc_type then rsc_index + 1 else rsc_index)
  ]

pub find_rsc : (size : ℕ) → (ℕ → ℕ) → (rsc_type index : ℕ) → Option ℕ
unfolding find_from
find_rsc size table rsc_type index = do
  num ← read32 size table 4
  find_from size table rsc_type index num 0 0

module _ {B P : Type 0} (m : MetalBitmap B) (size : ℕ) where
  -- The allocation of one id, with the field of the device entry written where it succeeds.
  pub assign_id : RscState B P → (rsc notifyid : ℕ) → Option (RscState B P)
  unfolding remoteproc_allocate_id
  assign_id s rsc notifyid = do
    (id, bitmap) ← remoteproc_allocate_id m s.rproc.bitmap notifyid ((notifyid + 1) % 2 ^ 32)
    let s = record s { rproc = record s.rproc { bitmap = bitmap } }
    (if id == notify_id_any
        then some s
        else (do table ← write32 size s.table (rsc + 8) id; some (record s { table = table })))

  -- The loop of `handle_vdev_rsc` over the vrings.
  pub assign_vrings : RscState B P → (rsc i left : ℕ) → Option (RscState B P)
  unfolding assign_id
  assign_vrings s rsc i zero = some s
  assign_vrings s rsc i (suc left) = do
    notifyid ← read32 size s.table (rsc + 28 + 20 * i + 12)
    s ← assign_id s rsc notifyid
    assign_vrings s rsc (i + 1) left

  pub handle_vdev_rsc : RscState B P → (rsc : ℕ) → Option (ℤ × RscState B P)
  unfolding assign_id assign_vrings
  handle_vdev_rsc s rsc = do
    notifyid ← read32 size s.table (rsc + 8)
    s ← assign_id s rsc notifyid
    num_vrings ← load size s.table (rsc + 25)
    s ← assign_vrings s rsc 0 num_vrings
    some (pos 0, s)

module _ {B P : Type 0} where
  pub handle_trace_rsc : (size : ℕ) → RscState B P → (rsc : ℕ) → Option (ℤ × RscState B P)
  handle_trace_rsc size s rsc = do
    da ← read32 size s.table (rsc + 4)
    len ← read32 size s.table (rsc + 8)
    some ((if not (da == u32_addr_any) && not (len == 0) then pos 0 else rsc_tab_ns), s)

  abbrev pub handle_dummy_rsc : RscState B P → (rsc : ℕ) → Option (ℤ × RscState B P)
  handle_dummy_rsc s rsc = some (rsc_tab_ns, s)

module _ {B P : Type 0} (metal : MetalIo) (mmap : Option (Mmap P)) (size : ℕ) where
  -- `handle_carve_out_rsc`; `rsc` is the offset of the entry.
  pub handle_carve_out_rsc : RscState B P → (rsc : ℕ) → Option (ℤ × RscState B P)
  handle_carve_out_rsc s rsc = do
    reserved ← read32 size s.table (rsc + 20)
    da ← read32 size s.table (rsc + 4)
    pa ← read32 size s.table (rsc + 8)
    len ← read32 size s.table (rsc + 12)
    attribute ← read32 size s.table (rsc + 16)
    (if not (reserved == 0)
        then some (rsc_tab_rsvd, s)
        else (let (r, p) =
              remoteproc_mmap metal s.rproc mmap s.platform (some pa) (some da) len attribute 0 in
            some ((if r.va == 0 then einval else pos 0), record s { platform = p })))

module _ {B P : Type 0} (handle_rsc : Option (HandleRsc P)) (size : ℕ) where
  pub handle_vendor_rsc : RscState B P → (rsc : ℕ) → Option (ℤ × RscState B P)
  handle_vendor_rsc s rsc = elim handle_rsc [
    | none ↦ some (rsc_tab_ns, s)
    | some f ↦ do
      len ← read32 size s.table (rsc + 4)
      let (ret, table, p) = f s.platform s.table rsc len
      some (ret, record s { table = table; platform = p })
  ]

module _ {B P : Type 0} (m : MetalBitmap B) (metal : MetalIo) (mmap : Option (Mmap P))
    (handle_rsc : Option (HandleRsc P)) (size : ℕ) where
  -- The dispatch through `rsc_handler_table`; `status` is what a type without a handler leaves.
  pub handle_entry : RscState B P → (status : ℤ) → (rsc_type rsc : ℕ) → Option (ℤ × RscState B P)
  unfolding handle_carve_out_rsc handle_vendor_rsc handle_vdev_rsc handle_trace_rsc
  handle_entry s status rsc_type rsc =
      if rsc_type == 0
      then handle_carve_out_rsc metal mmap size s rsc
      else (if rsc_type == 1
          then handle_dummy_rsc s rsc
          else (if rsc_type == 2
              then handle_trace_rsc size s rsc
              else (if rsc_type == 3
                  then handle_vdev_rsc m size s rsc
                  else (if leb rsc_vendor_start rsc_type && leb rsc_type rsc_vendor_end
                      then handle_vendor_rsc handle_rsc size s rsc
                      else some (status, s)))))

  -- A status that the loop goes on with: 0, or that there is no service for the entry.
  abbrev pub goes_on : ℤ → Bool
  goes_on (pos zero) = true
  goes_on (pos (suc n)) = false
  goes_on (negsuc n) = n == 10

  module _ (io : Option (ℕ → Bool)) where
    abbrev pub in_region : (off : ℕ) → Bool
    in_region off = elim io [ none ↦ true | some f ↦ f off ]

    -- The loop over the entries, from entry `idx` with `left` to go. Its status is 0 at the top of each
    -- round.
    pub handle_entries : RscState B P → (idx left : ℕ) → Option (ℤ × RscState B P)
    unfolding handle_entry
    handle_entries s idx zero = some (pos 0, s)
    handle_entries s idx (suc left) = do
      off ← read32 size s.table (sizeof_resource_table + 4 * idx)
      elim (in_region off) [
        | false ↦ some (rsc_tab_trunc, s)
        | true ↦ do
          rsc_type ← read32 size s.table off
          (status, s) ← handle_entry s (pos 0) rsc_type off
          elim (goes_on status) [
            | true ↦ handle_entries s (idx + 1) left
            | false ↦ some (status, s)
          ]
      ]

    -- `handle_rsc_table`; `given` is the size that the caller gives. The end of the offset array is
    -- computed in an `unsigned int`.
    pub handle_rsc_table : RscState B P → (given : ℕ) → Option (ℤ × RscState B P)
    unfolding handle_entries
    handle_rsc_table s given = elim (ltb given sizeof_resource_table) [
      | true ↦ some (rsc_tab_trunc, s)
      | false ↦ do
        ver ← read32 size s.table 0
        num ← read32 size s.table 4
        reserved0 ← read32 size s.table 8
        reserved1 ← read32 size s.table 12
        (if not (ver == supported_version)
            then some (rsc_tab_ver, s)
            else (if ltb given ((sizeof_resource_table + num * 4) % 2 ^ 32)
                then some (rsc_tab_trunc, s)
                else (if not (reserved0 == 0) || not (reserved1 == 0)
                    then some (rsc_tab_rsvd, s)
                    else handle_entries s 0 num)))
    ]
