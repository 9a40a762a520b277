-- ===== src/Remoteproc/RscTable/Find.antt =====
-- lib/remoteproc/rsc_table_parser.c: `find_rsc` against the list of the table's entries.
use openamp.Base.{
  ℕ, zero, suc, ◌+◌, ◌*◌, ◌≡◌, refl, some, List, [], ◌∷◌, arith, ◌==◌, if◌then◌else◌, length,
}
use openamp.Remoteproc.RscTable.{read32, sizeof_resource_table, find_from, find_rsc}

-- The entries of a table from number `i` on, each with its offset and its type.
pub record Entry : Type 0 where
  pub offset : ℕ
  pub type : ℕ

abbrev pub Entries : (size : ℕ) → (ℕ → ℕ) → (i : ℕ) → List Entry → Type 0
Entries size table i [] = Unit
Entries size table i (e ∷ es) =
    (read32 size table (sizeof_resource_table + 4 * i) ≡ some e.offset)
    × (read32 size table e.offset ≡ some e.type)
    × Entries size table (i + 1) es

-- The offsets of the entries of one type, in order.
abbrev pub offsets_of : (rsc_type : ℕ) → List Entry → List ℕ
offsets_of rsc_type [] = []
offsets_of rsc_type (e ∷ es) =
    if e.type == rsc_type then e.offset ∷ offsets_of rsc_type es else offsets_of rsc_type es

abbrev pub nth_or_zero : List ℕ → (index : ℕ) → ℕ
nth_or_zero [] index = 0
nth_or_zero (x ∷ xs) zero = x
nth_or_zero (x ∷ xs) (suc index) = nth_or_zero xs index

module _ (size : ℕ) (table : ℕ → ℕ) (rsc_type : ℕ) where
  find_from-nth :
      (es : List Entry) (i k left index : ℕ)
      → Entries size table i es
      → k + left ≡ index
      → find_from size table rsc_type index (length es) i k
        ≡ some (nth_or_zero (offsets_of rsc_type es) left)
  unfolding find_from
  find_from-nth [] i k left index h at = refl
  find_from-nth (e ∷ es) i k zero index (ho, ht, h) at =
      ground (arith, ho, ht, find_from-nth es (i + 1) k zero index h at)
  find_from-nth (e ∷ es) i k (suc left) index (ho, ht, h) at = ground (
    arith,
    ho,
    ht,
    find_from-nth es (i + 1) k (suc left) index h at,
    find_from-nth es (i + 1) (k + 1) left index h (omega arith),
  )

  -- For a table whose entries can all be read, `find_rsc` returns the offset of the entry that comes
  -- `index`-th, from 0, among those of the type, and 0 where there are fewer.
  pub find_rsc-nth :
      (es : List Entry) (index : ℕ)
      → read32 size table 4 ≡ some (length es)
      → Entries size table 0 es
      → find_rsc size table rsc_type index ≡ some (nth_or_zero (offsets_of rsc_type es) index)
  unfolding find_rsc
  find_rsc-nth es index hn h = rw hn (find_from-nth es 0 0 index index h (omega arith))
