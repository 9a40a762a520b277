-- ===== src/Remoteproc/Tests.antt =====
-- The theorems of the remote processor applied to a processor with two memories, whose platform counts the
-- calls and refuses to be configured, and to a resource table of 148 bytes with two entries.
use openamp.Base.{
  ℕ, ◌+◌, ◌-◌, ◌<◌, ◌≤◌, ◌≡◌, ◌⊎◌, refl, Bool, true, false, none, some, List, [], ◌∷◌, ◌++◌, arith,
  ◌==◌, if◌then◌else◌, All,
}
use openamp.Base.Int.{pos, negsuc}
use openamp.Rpmsg.Tests.{bits, bits-IsBitmap}
use openamp.Remoteproc.{Remoteproc, RemoteprocMem, offline, notify_id_any, bad_phys}
use openamp.Remoteproc.Lifecycle.{LifeOps}
use openamp.Remoteproc.Lifecycle.Order.{
  InOrder, run, logged, Call, config_call, start_call, shutdown_call, remove_call, off, run-InOrder,
}
use openamp.Remoteproc.Memory.{MetalIo, remoteproc_mmap}
use openamp.Remoteproc.Memory.Translate.{Covers, mmap_da}
use openamp.Remoteproc.Ids.{remoteproc_allocate_id, range_start, range_end, allocate_id_fresh}
use openamp.Remoteproc.RscTable.{RscState, find_rsc}
use openamp.Remoteproc.RscTable.Find.{nth_or_zero, offsets_of, find_rsc-nth}

abbrev refusing : LifeOps ℕ
refusing = record {
  config = some (λ p arg. (negsuc 4, p + 1));
  start = λ p. (pos 0, p + 10);
  stop = some (λ p. (pos 0, p + 100));
  shutdown = none;
  remove = λ p. 0;
}

abbrev memories : List RemoteprocMem
memories =
    record { da = 0; pa = 0x3000_0000; size = 0x1000; name = 0x61 ∷ []; io = 5 }
    ∷ record { da = 0x8000; pa = 0x4000_0000; size = 0x4000; name = 0x62 ∷ []; io = 6 }
    ∷ []

abbrev no_ids : ℕ → Bool
no_ids i = false

abbrev sleeping : Remoteproc (ℕ → Bool)
sleeping = record { state = offline; mems = memories; bitmap = no_ids }

abbrev calls : List Call
calls = start_call ∷ config_call 3 ∷ start_call ∷ remove_call ∷ shutdown_call ∷ remove_call ∷ []

run-InOrder_example :
    let r = run (logged refusing) calls sleeping (0, []) in InOrder r.0.state r.1.1
run-InOrder_example = run-InOrder refusing calls sleeping 0 [] (off, refl, refl)

-- Regions whose virtual addresses are their physical ones.
abbrev identity_io : MetalIo
identity_io = record {
  virt_to_offset = λ io va. bad_phys;
  phys_to_offset = λ io pa. pa;
  phys_to_virt = λ io pa. pa;
}

abbrev seven : ℕ
seven = 7

mmap_da_example :
    (All (λ mem. ¬ Covers 0x9000 16 mem) memories
      × (remoteproc_mmap identity_io sleeping none seven none (some 0x9000) 16 0 1
          ≡ (record { va = 0; pa = bad_phys; da = 0x9000; io = 1 }, seven)))
    ⊎ ((pre post : List RemoteprocMem) × (mem : RemoteprocMem) × (memories ≡ pre ++ (mem ∷ post))
        × All (λ m. ¬ Covers 0x9000 16 m) pre
        × Covers 0x9000 16 mem
        × (let pa = mem.pa + (0x9000 - mem.da) in
            (remoteproc_mmap identity_io sleeping none seven none (some 0x9000) 16 0 1
              ≡ (record { va = pa; pa = pa; da = 0x9000; io = mem.io }, seven))
            × (pa + 16 ≤ mem.pa + mem.size)))
mmap_da_example =
    mmap_da identity_io 0x9000 16 (omega arith) (omega arith) sleeping none seven 0 1
      (omega arith, (omega arith, tt))

allocate_id_fresh_example :
    (id : ℕ) × (bitmap' : ℕ → Bool) × (remoteproc_allocate_id bits no_ids notify_id_any 0
      ≡ some (id, bitmap'))
    × (((range_start notify_id_any ≤ id)
          × (id < range_end 0)
          × (no_ids id ≡ false)
          × ((j : ℕ) → bitmap' j ≡ (if j == id then true else no_ids j)))
        ⊎ ((id ≡ notify_id_any)
            × (bitmap' ≡ no_ids)
            × ((i : ℕ) → range_start notify_id_any ≤ i → i < range_end 0 → no_ids i ≡ true)))
allocate_id_fresh_example =
    allocate_id_fresh bits bits-IsBitmap no_ids notify_id_any 0 (omega arith) (omega arith)

-- Two entries, a trace buffer at 24 and a device at 80, whose ids are 3 and, of its one vring, 9.
abbrev two_entries : ℕ → ℕ
two_entries i =
    if i == 0
    then 1
    else (if i == 4
        then 2
        else (if i == 16
            then 24
            else (if i == 20
                then 80
                else (if i == 24
                    then 2
                    else (if i == 80
                        then 3
                        else (if i == 88
                            then 3
                            else (if i == 105 then 1 else (if i == 120 then 9 else 0))))))))

find_rsc-nth_example :
    find_rsc 148 two_entries 3 0
    ≡ some (
        nth_or_zero
          (offsets_of 3 (record { offset = 24; type = 2 } ∷ record { offset = 80; type = 3 } ∷ []))
          0)
find_rsc-nth_example =
    find_rsc-nth 148 two_entries 3
      (record { offset = 24; type = 2 } ∷ record { offset = 80; type = 3 } ∷ []) 0 refl
      (refl, refl, (refl, refl, tt))

abbrev parsing : RscState (ℕ → Bool) ℕ
parsing = record { table = two_entries; rproc = sleeping; platform = 0 }
