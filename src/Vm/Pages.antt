-- ===== src/Vm/Pages.antt =====
-- vm/sup_page_table.c: the pages of a process in a hash table by their addresses. `aux` is the address
-- of the entry on the stack that a search compares with.
pub mod Entries
use implso.Prelude.{
  ℕ, ◌+◌, ◌*◌, ◌/◌, ◌%◌, ◌^◌, Bool, true, false, Option, none, some, ltb, ◌==◌, if◌then◌else◌,
}
use implso.Prelude.Run.{Run, ok, ◌>>=◌}
use implso.Kernel.Bitmap.{bitmap_error}
use implso.Kernel.Hash
use implso.Kernel.Hash.{Hash}
use implso.Kernel.Hash.Bytes.{hash_int}

pub data PageSource : Type 0 where
  zero_page : PageSource
  swapped : PageSource
  file_backed : PageSource

-- A pointer to a file or to a mapping is its address, and 0 is NULL.
pub record SupPage : Type 0 where
  pub user_vaddr : ℕ
  pub access_time : ℕ
  pub is_loaded : Bool
  pub source : PageSource
  pub swap_slot_index : ℕ
  pub file : ℕ
  pub ofs : ℕ
  pub read_bytes : ℕ
  pub zero_bytes : ℕ
  pub writable : Bool
  pub mapping : ℕ

-- The entries by their addresses, and the table of the running thread.
pub record SupPageTable : Type 0 where
  pub pages : ℕ → SupPage
  pub table : Hash

abbrev pub put_page : ℕ → SupPage → (ℕ → SupPage) → ℕ → SupPage
put_page a page pages x = if x == a then page else pages x

-- The hash of the four bytes of the address.
unfoldable pub sup_page_hash : (ℕ → SupPage) → ℕ → ℕ
sup_page_hash pages e = hash_int (pages e).user_vaddr

unfoldable pub sup_page_less : (ℕ → SupPage) → ℕ → ℕ → Bool
sup_page_less pages a b = ltb (pages a).user_vaddr (pages b).user_vaddr

abbrev pub pgsize : ℕ
pgsize = 4096

unfoldable pub pg_round_down : ℕ → ℕ
pg_round_down va = va / pgsize * pgsize

-- `aux.user_vaddr = upage;`
abbrev pub with_aux : (aux upage : ℕ) → (ℕ → SupPage) → ℕ → SupPage
with_aux aux upage pages = put_page aux (record (pages aux) { user_vaddr = upage }) pages

abbrev pub lookup : (aux : ℕ) → (ℕ → SupPage) → Hash → Option ℕ
lookup aux pages table = Hash.find (sup_page_hash pages) (sup_page_less pages) table aux

unfoldable pub find : (aux fault_addr : ℕ) → SupPageTable → Option ℕ
find aux fault_addr t = lookup aux (with_aux aux (pg_round_down fault_addr) t.pages) t.table

abbrev pub zero_entry : (upage : ℕ) → SupPage
zero_entry upage = record {
  user_vaddr = upage;
  access_time = 0;
  is_loaded = true;
  source = zero_page;
  swap_slot_index = bitmap_error;
  file = 0;
  ofs = 0;
  read_bytes = 0;
  zero_bytes = 0;
  writable = true;
  mapping = 0;
}

-- hash_insert of a new entry; `memory` says whether malloc gives new buckets.
unfoldable pub enter :
    (memory : Bool) (spte : ℕ) → SupPage → SupPageTable → Run (Option ℕ × SupPageTable)
enter memory spte page t = do
  let pages = put_page spte page t.pages
  (old, table) ← Hash.insert (sup_page_hash pages) (sup_page_less pages) memory spte t.table
  ok (old, record { pages = pages; table = table })

-- What sup_page_table_add returns for the result of hash_insert.
unfoldable pub added : (aux spte : ℕ) → Option ℕ × SupPageTable → Option ℕ × SupPageTable
added aux spte (none, t) = (some spte, t)
added aux spte (some old, t) = (lookup aux t.pages t.table, t)

-- `block` is what malloc gives for the new entry.
unfoldable pub add_new :
    (memory : Bool) (block : Option ℕ) (aux upage : ℕ)
    → SupPageTable
    → Run (Option ℕ × SupPageTable)
add_new memory none aux upage t = ok (none, t)
add_new memory (some spte) aux upage t = do
  r ← enter memory spte (zero_entry upage) t
  ok (added aux spte r)

unfoldable pub add :
    (memory : Bool) (block : Option ℕ) (aux fault_addr : ℕ)
    → SupPageTable
    → Run (Option ℕ × SupPageTable)
add memory block aux fault_addr t =
    let upage = pg_round_down fault_addr in
    let t' : SupPageTable = record t { pages = with_aux aux upage t.pages } in
    elim (lookup aux t'.pages t'.table) [
      | some elem ↦ ok (some elem, t')
      | none ↦ add_new memory block aux upage t'
    ]

abbrev pub file_entry : (upage file ofs read_bytes zero_bytes : ℕ) (writable : Bool) → SupPage
file_entry upage file ofs read_bytes zero_bytes writable = record (zero_entry upage) {
  is_loaded = false;
  source = file_backed;
  file = file;
  ofs = ofs;
  read_bytes = read_bytes;
  zero_bytes = zero_bytes;
  writable = writable;
}

unfoldable pub add_file_new :
    (memory : Bool) (block : Option ℕ) → SupPage → SupPageTable → Run (Option ℕ × SupPageTable)
add_file_new memory none page t = ok (none, t)
add_file_new memory (some spte) page t = do (_, t') ← enter memory spte page t; ok (some spte, t')

unfoldable pub add_file :
    (memory : Bool) (block : Option ℕ) (aux upage file ofs read_bytes zero_bytes : ℕ)
    (writable : Bool)
    → SupPageTable
    → Run (Option ℕ × SupPageTable)
add_file memory block aux upage file ofs read_bytes zero_bytes writable t =
    let upage' = pg_round_down upage in
    let t' : SupPageTable = record t { pages = with_aux aux upage' t.pages } in
    elim (lookup aux t'.pages t'.table) [
      | some elem ↦ ok (some elem, t')
      | none ↦
          add_file_new memory block (file_entry upage' file ofs read_bytes zero_bytes writable) t'
    ]

unfoldable pub remove : (memory : Bool) (spte : ℕ) → SupPageTable → Run SupPageTable
remove memory spte t = do
  (_, table) ← Hash.delete (sup_page_hash t.pages) (sup_page_less t.pages) memory spte t.table
  ok (record t { table = table })
