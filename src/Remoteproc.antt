-- ===== src/Remoteproc.antt =====
-- lib/include/openamp/remoteproc.h: the state of a remote processor, its memories and the error codes.
--
-- `Remoteproc` is `struct remoteproc`. The functions of `struct remoteproc_ops` are the platform's, a
-- parameter: each is a step of the platform's own state `P`, and does not write the fields that are
-- modelled here. A pointer is a number, 0 is NULL; an I/O region of libmetal is named by its pointer.
pub mod Lifecycle
pub mod Memory
pub mod Ids
pub mod RscTable
pub mod Virtio
pub mod Elf
pub mod Image
pub mod Tests
use openamp.Base.{ℕ, ◌-◌, ◌^◌, Bool, Option, List}
use openamp.Base.Int.{ℤ, neg}

-- RPROC_E*, as the negative numbers that the functions return
abbrev pub enomem : ℤ
enomem = neg 1

abbrev pub einval : ℤ
einval = neg 2

abbrev pub enodev : ℤ
enodev = neg 3

abbrev pub eagain : ℤ
eagain = neg 4

abbrev pub rsc_tab_trunc : ℤ
rsc_tab_trunc = neg 5

abbrev pub rsc_tab_ver : ℤ
rsc_tab_ver = neg 6

abbrev pub rsc_tab_rsvd : ℤ
rsc_tab_rsvd = neg 7

abbrev pub rsc_tab_ns : ℤ
rsc_tab_ns = neg 11

-- enum remoteproc_state, but for RPROC_LAST
pub data RemoteprocState : Type 0 where
  offline configured ready running suspended error stopped : RemoteprocState

-- `struct remoteproc_mem`
pub record RemoteprocMem : Type 0 where
  pub da : ℕ
  pub pa : ℕ
  pub size : ℕ
  pub name : List ℕ
  pub io : ℕ

-- METAL_BAD_PHYS and METAL_BAD_OFFSET of libmetal, `(unsigned long) -1`
abbrev pub bad_phys : ℕ
bad_phys = 2 ^ 64 - 1

-- RSC_NOTIFY_ID_ANY
abbrev pub notify_id_any : ℕ
notify_id_any = 2 ^ 32 - 1

-- `struct remoteproc`; `B` is the bitmap of notification ids
pub record Remoteproc (B : Type 0) : Type 0 where
  pub state : RemoteprocState
  pub mems : List RemoteprocMem
  pub bitmap : B
