-- ===== src/Vm/Pages/Entries.antt =====
-- The table of pages in vm/sup_page_table.c: the entry of a page is found by any address in the page.
use implso.Prelude.{
  ℕ, ◌≡◌, ◌≢◌, sym, ap, ◌∙◌, true, false, Option, none, some, arith, ltb, ◌==◌, Bool-cases, ==_self,
  ◌↔◌, inl, inr,
}
use implso.Kernel.Hash
use implso.Kernel.Hash.{Hash}
use implso.Kernel.Hash.Agree.{stands, IsTable-agree}
use implso.Kernel.Hash.Bytes.{hash_int}
use implso.Kernel.Hash.Contents.{IsKey, holds}
use implso.Kernel.Hash.Move.{holds-among}
use implso.Kernel.Hash.Table.{IsTable, Found, absent, present, find_lem}
use implso.Vm.Pages
use implso.Vm.Pages.{
  SupPage, SupPageTable, sup_page_hash, sup_page_less, put_page, with_aux, pg_round_down, lookup,
}

pages-IsKey : (pages : ℕ → SupPage) → IsKey (sup_page_hash pages) (sup_page_less pages)
unfolding Hash.equal sup_page_less sup_page_hash
pages-IsKey pages = record {
  equal_self = λ a. ground arith;
  equal_symm = λ a b. ground arith;
  equal_trans = λ a b c e f. ground arith;
  hash_equal = λ a b e. ground arith;
}

-- The table of a process.
abbrev pub IsPages : SupPageTable → Type 0
IsPages t = IsTable (sup_page_hash t.pages) (sup_page_less t.pages) t.table

apart :
    (t : SupPageTable) (a x : ℕ)
    → stands t.table a ≡ false
    → stands t.table x ≡ true
    → (x == a) ≡ false
apart t a x out s = elim (Bool-cases (x == a)) [
  | inl e ↦ let q : x ≡ a = ground arith in absurd (ground (arith, q, out, s))
  | inr e ↦ e
]

untouched :
    (a x : ℕ) (page : SupPage) (pages : ℕ → SupPage)
    → (x == a) ≡ false
    → put_page a page pages x ≡ pages x
untouched a x page pages e = rw e

-- Entries that are not in the table may change.
pub put_page-IsPages :
    (a : ℕ) (page : SupPage) (t : SupPageTable)
    → IsPages t
    → stands t.table a ≡ false
    → IsPages (record t { pages = put_page a page t.pages })
unfolding sup_page_hash sup_page_less
put_page-IsPages a page t p out =
    IsTable-agree (sup_page_hash t.pages) (sup_page_hash (put_page a page t.pages))
      (sup_page_less t.pages) (sup_page_less (put_page a page t.pages)) t.table
      (λ x s.
        ap (λ (q : SupPage). hash_int q.user_vaddr)
          (untouched a x page t.pages (apart t a x out s)))
      (λ x y s u.
        ap (λ (q : SupPage). ltb q.user_vaddr (put_page a page t.pages y).user_vaddr)
          (untouched a x page t.pages (apart t a x out s))
        ∙ ap (λ (q : SupPage). ltb (t.pages x).user_vaddr q.user_vaddr)
            (untouched a y page t.pages (apart t a y out u)))
      p

-- What sup_page_table_find gives for the page of an address.
pub data FoundPage (t : SupPageTable) (upage : ℕ) : Option ℕ → Type 0 where
  no_page :
      ((x : ℕ) → stands t.table x ≡ true → (t.pages x).user_vaddr ≢ upage) → FoundPage t upage none
  page_at :
      (e : ℕ)
      → stands t.table e ≡ true
      → (t.pages e).user_vaddr ≡ upage
      → FoundPage t upage (some e)

equal_iff :
    (pages : ℕ → SupPage) (a b : ℕ)
    → (Hash.equal (sup_page_hash pages) (sup_page_less pages) a b ≡ true)
      ↔ ((pages a).user_vaddr ≡ (pages b).user_vaddr)
unfolding Hash.equal sup_page_less
equal_iff pages a b = (λ e. ground (arith, e), λ e. ground (arith, e))

pub lookup_lem :
    (aux upage : ℕ) (t : SupPageTable)
    → IsPages t
    → stands t.table aux ≡ false
    → FoundPage t upage (lookup aux (with_aux aux upage t.pages) t.table)
lookup_lem aux upage t p out = at_found _ (find_lem _ _ (pages-IsKey pages) t.table aux)
  where
    page : SupPage
    page = record (t.pages aux) { user_vaddr = upage }

    pages : ℕ → SupPage
    pages = with_aux aux upage t.pages

    p' : IsPages (record t { pages = with_aux aux upage t.pages })
    p' = put_page-IsPages aux (record (t.pages aux) { user_vaddr = upage }) t p out

    of_aux : (with_aux aux upage t.pages aux).user_vaddr ≡ upage
    of_aux = rw (==_self aux)

    of_entry :
        (x : ℕ)
        → stands t.table x ≡ true
        → (with_aux aux upage t.pages x).user_vaddr ≡ (t.pages x).user_vaddr
    of_entry x s =
        ap (λ (q : SupPage). q.user_vaddr) (untouched aux x page t.pages (apart t aux x out s))

    held : (x : ℕ) → holds (sup_page_hash pages) (sup_page_less pages) t.table x ≡ stands t.table x
    held x = holds-among _ _ t.table x p'.placed

    at_found :
        (o : Option ℕ)
        → Found (sup_page_hash pages) (sup_page_less pages) t.table aux o
        → FoundPage t upage o
    at_found none (absent other) = no_page (λ x s e.
        let q : Hash.equal (sup_page_hash pages) (sup_page_less pages) x aux ≡ true =
          (equal_iff pages x aux).1 (of_entry x s ∙ (e ∙ sym of_aux)) in
        absurd (ground (arith, q, other x (held x ∙ s))))
    at_found (some e) (present _ i q) =
        let s = sym (held e) ∙ i in
        page_at e s (sym (of_entry e s) ∙ ((equal_iff pages e aux).0 q ∙ of_aux))

-- For a table in which no two entries have one page, and an entry on the stack that is not in it,
-- sup_page_table_find returns the entry whose page holds the address, or none if the table has no
-- entry of that page.
pub find_page_lem :
    (aux fault_addr : ℕ) (t : SupPageTable)
    → IsPages t
    → stands t.table aux ≡ false
    → FoundPage t (pg_round_down fault_addr) (Pages.find aux fault_addr t)
unfolding Pages.find
find_page_lem aux fault_addr t p out = lookup_lem aux (pg_round_down fault_addr) t p out
