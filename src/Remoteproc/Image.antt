-- ===== src/Remoteproc/Image.antt =====
-- lib/remoteproc/remoteproc.c: `remoteproc_load_noblock`, `remoteproc_check_fw_format`,
-- `remoteproc_parse_rsc_table` and `remoteproc_set_rsc_table`.
--
-- The loader is `elf_ops`, the only one of the repository. `ImageState` is what the calls change. The image data
-- is not NULL, and neither are the pointers that are asserted; `Outputs` is what is behind them. What happens
-- to the image info at the end of a call is an `InfoEnd`: it is not looked at, it goes to `*img_info`, or
-- `loader->release` frees it. A result of `none` is an access outside a buffer.
pub mod Segment
use openamp.Base.{
  ℕ, ◌+◌, ◌-◌, ◌^◌, Bool, true, false, not, ◌&&◌, ◌||◌, Option, none, some, ltb, ◌==◌,
  if◌then◌else◌, ◌>>=◌,
}
use openamp.Base.Int.{ℤ, pos, is_zero, is_negative}
use openamp.Rpmsg.{MetalBitmap}
use openamp.Remoteproc.{Remoteproc, bad_phys, einval, enomem}
use openamp.Remoteproc.Lifecycle.{is_ready}
use openamp.Remoteproc.Memory.{MetalIo, Mmap, remoteproc_mmap, remoteproc_get_io_with_va}
use openamp.Remoteproc.RscTable.{RscState, HandleRsc, handle_rsc_table}
use openamp.Remoteproc.Elf.{
  not_ready, ready_to_load, post_data_load, load_complete, LoadState, state_init, ElfInfo,
  elf_identify, elf_get_entry,
}
use openamp.Remoteproc.Elf.Header.{LoadRet, failed, state, Loading, same_stage, elf_load_header}
use openamp.Remoteproc.Elf.Load.{Target, load_anyaddr, elf_load}
use openamp.Remoteproc.Elf.Sections.{RscPlace, elf_locate_rsc_table}

-- `loader` says whether `rproc->loader` is set.
pub record ImageState (B P : Type 0) : Type 0 where
  pub rproc : Remoteproc B
  pub platform : P
  pub loader : Bool
  pub bootaddr : ℕ
  pub rsc_table : ℕ
  pub rsc_len : ℕ
  pub rsc_io : ℕ

pub record Outputs : Type 0 where
  pub pa : ℕ
  pub io : ℕ
  pub noffset : ℕ
  pub nlen : ℕ
  pub nmlen : ℕ
  pub padding : ℕ

pub data InfoEnd : Type 0 where
  unseen : InfoEnd
  handed released : Option ElfInfo → InfoEnd

-- `metal_io_block_read` and `metal_io_block_write` of libmetal: the number of bytes, or an error.
pub record BlockIo (P : Type 0) : Type 0 where
  pub block_read : P → (io off size : ℕ) → ℤ × (ℕ → ℕ)
  pub block_write : P → (io off : ℕ) → (ℕ → ℕ) → (size : ℕ) → ℤ × P

-- Whether a call has read or written all of `size` bytes.
abbrev pub is_count : ℤ → (size : ℕ) → Bool
is_count (pos n) size = n == size
is_count n size = false

pub remoteproc_check_fw_format : (ℕ → ℕ) → (img_len : ℕ) → Bool
remoteproc_check_fw_format img img_len =
    if img_len == 0 then false else elf_identify (some img) img_len

module _ {B P : Type 0} (m : MetalBitmap B) (metal : MetalIo) (mmap : Option (Mmap P))
    (handle_rsc : Option (HandleRsc P)) where
  -- The table is `rsc_size` bytes at the address `rsc_table`.
  pub remoteproc_parse_rsc_table :
      RscState B P → (rsc_table rsc_size : ℕ) → Option (ℤ × RscState B P)
  remoteproc_parse_rsc_table s rsc_table rsc_size =
      let io = remoteproc_get_io_with_va metal s.rproc rsc_table in
      handle_rsc_table m metal mmap handle_rsc rsc_size
        (if io == 0
          then none
          else some (λ off. not (metal.virt_to_offset io (rsc_table + off) == bad_phys)))
        s rsc_size

  -- `table` is what is in the memory there before.
  pub remoteproc_set_rsc_table :
      ImageState B P
      → (table : ℕ → ℕ) → (rsc_table rsc_size : ℕ) → Option (ℤ × (ℕ → ℕ) × ImageState B P)
  unfolding remoteproc_parse_rsc_table
  remoteproc_set_rsc_table s table rsc_table rsc_size =
      let io = remoteproc_get_io_with_va metal s.rproc rsc_table in
      if io == 0 then some (einval, table, s) else (do
        (ret, r) ←
            remoteproc_parse_rsc_table
              (record { table = table; rproc = s.rproc; platform = s.platform }) rsc_table rsc_size
        let s' = record s { rproc = r.rproc; platform = r.platform }
        some (
          ret,
          r.table,
          if is_zero ret
              then record s' { rsc_table = rsc_table; rsc_len = rsc_size; rsc_io = io }
              else s',
        ))

abbrev pub padding_of : Target → (padding : ℕ) → ℕ
padding_of t padding = elim t.padding [ none ↦ padding | some b ↦ b ]

-- What a call returns.
abbrev pub Result : (B P : Type 0) → Type 0
Result B P = ℤ × InfoEnd × Outputs × ImageState B P

module _ {B P : Type 0} (m : MetalBitmap B) (metal : MetalIo) (mmap : Option (Mmap P))
    (handle_rsc : Option (HandleRsc P)) (blocks : BlockIo P) (alloc : (size : ℕ) → Bool)
    (lrsc_table : ℕ) (to_caller : Bool) where
  -- The labels `error1` and `out`; `to_caller` says whether `img_info` is given.
  abbrev pub error1 : ℤ → Option ElfInfo → Outputs → ImageState B P → Option (Result B P)
  error1 ret info o s = some (ret, released info, o, s)

  abbrev pub out : Option ElfInfo → Outputs → ImageState B P → Option (Result B P)
  out info o s = some (pos 0, (if to_caller then handed info else released info), o, s)

  -- The copy of the resource table at the local address `lrsc_table` is parsed and written back.
  pub update_rsc :
      Option ElfInfo → (rsc_table rsc_size : ℕ) → Outputs → ImageState B P → Option (Result B P)
  unfolding remoteproc_parse_rsc_table
  update_rsc info rsc_table rsc_size o s =
      let off = metal.virt_to_offset o.io rsc_table in
      let (n, table) = blocks.block_read s.platform o.io off rsc_size in
      elim (is_count n rsc_size) [
        | false ↦ error1 n info o s
        | true ↦ do
          (ret, r) ←
              remoteproc_parse_rsc_table m metal mmap handle_rsc
                (record { table = table; rproc = s.rproc; platform = s.platform }) lrsc_table
                rsc_size
          let s' = record s { rproc = r.rproc; platform = r.platform }
          elim (is_negative ret) [
            | true ↦ error1 ret info o s'
            | false ↦
                let (_, p) = blocks.block_write r.platform o.io off r.table rsc_size in
                out info o (record s' {
                  platform = p;
                  rsc_table = rsc_table;
                  rsc_len = rsc_size;
                  bootaddr = elf_get_entry info;
                })
          ]
      ]

  -- The end of the loading. `place` are the variables for the resource table before they are set.
  pub load_rsc :
      (place : RscPlace) → Option ElfInfo → Outputs → ImageState B P → Option (Result B P)
  unfolding update_rsc
  load_rsc place info o s = do
    (ret, place) ← elf_locate_rsc_table info place
    elim (is_zero ret && ltb 0 place.size) [
      | false ↦ out info o (record s { bootaddr = elf_get_entry info })
      | true ↦ elim (alloc place.size) [
        | false ↦ error1 enomem info o s
        | true ↦
            let (r, p) =
              remoteproc_mmap metal s.rproc mmap s.platform none (some place.da) place.size 0
                o.io in
            let o = record o { io = r.io } in
            let s = record s { platform = p } in
            if r.io == 0 then error1 ret info o s else update_rsc info r.va place.size o s
      ]
    ]

  pub finish :
      (place : RscPlace)
      → LoadState
      → Option ElfInfo
      → Outputs
      → ImageState B P
      → Option (Result B P)
  unfolding load_rsc
  finish place last info o s =
      if same_stage last.stage load_complete then load_rsc place info o s else out info o s

  -- The data that `elf_load` asks for gets its physical address and its region.
  pub place_data :
      (place : RscPlace)
      → LoadState
      → Loading
      → Target
      → Outputs
      → ImageState B P
      → Option (Result B P)
  unfolding finish
  place_data place last l t o s = elim (t.da == load_anyaddr) [
    | true ↦ if l.nlen == 0 then finish place last l.info o s else out l.info o s
    | false ↦
        let (r, p) =
          remoteproc_mmap metal s.rproc mmap s.platform (some bad_phys) (some t.da) o.nmlen 0
            o.io in
        let o = record o { pa = r.pa; io = r.io } in
        let s = record s { platform = p } in
        if r.pa == bad_phys
        then error1 einval l.info o s
        else (if l.nlen == 0 then finish place last l.info o s else out l.info o s)
  ]

  module _ (img : ℕ → ℕ) (offset len : ℕ) (place : RscPlace) where
    pub load_data : LoadState → Loading → Outputs → ImageState B P → Option (Result B P)
    unfolding place_data
    load_data last l o s =
        if same_stage last.stage ready_to_load || same_stage last.stage post_data_load
        then (do
          (r, l, t) ←
              elf_load alloc img offset len last l
                (record { da = load_anyaddr; nmemsize = o.nmlen; padding = some o.padding })
          let o = record o {
            noffset = l.noffset;
            nlen = l.nlen;
            nmlen = t.nmemsize;
            padding = padding_of t o.padding;
          }
          elim r [ failed e ↦ error1 e l.info o s | state last ↦ place_data place last l t o s ])
        else finish place last l.info o s

    pub load_headers : LoadState → Option ElfInfo → Outputs → ImageState B P → Option (Result B P)
    unfolding load_data
    load_headers last info o s =
        let l : Loading = record { info = info; noffset = o.noffset; nlen = 0 } in
        let o = record o { nlen = 0 } in
        if same_stage last.stage ready_to_load || same_stage last.stage load_complete
        then load_data last l o s
        else (do
          (r, l) ← elf_load_header alloc img offset len last l
          let o = record o { noffset = l.noffset; nlen = l.nlen }
          elim r [
            | failed e ↦ error1 e l.info o s
            | state last ↦
                if not (l.nlen == 0) && not (same_stage last.stage ready_to_load)
                then out l.info o s
                else load_data last l o s
          ])

    -- The load state of the image info that the caller gives.
    abbrev pub last_state : Option ElfInfo → LoadState
    last_state none = state_init
    last_state (some info) = info.load_state

    -- `info` is `*img_info`, NULL where `img_info` is NULL.
    pub remoteproc_load_noblock :
        (info : Option ElfInfo) → Outputs → ImageState B P → Option (Result B P)
    unfolding load_headers remoteproc_check_fw_format
    remoteproc_load_noblock info o s =
        if not (is_ready s.rproc.state)
        then some (einval, unseen, o, s)
        else (if s.loader || (offset == 0 && remoteproc_check_fw_format img len)
            then load_headers (last_state info) info o (record s { loader = true })
            else some (einval, unseen, o, s))
