-- ===== src/Threads/Palloc.antt =====
-- threads/palloc.c: the allocator of pages. The lock of a pool is left out: bitmap_scan_and_flip
-- is the only step under it.
pub mod Frees
pub mod Grants
pub mod Start
use implso.Prelude.{
  ℕ, zero, suc, ◌+◌, ◌-◌, ◌*◌, ◌/◌, ◌%◌, ◌^◌, Bool, true, false, not, ◌&&◌, ◌||◌, List, [], ◌∷◌,
  Option, none, some, ltb, leb, ◌==◌, if◌then◌else◌,
}
use implso.Prelude.Run.{Run, ok, panic, ◌>>=◌, ◌>>◌, assert}
use implso.Kernel.Bitmap.{
  Bitmap, bitmap_error, scan_and_flip, all, set_multiple, size, add_size, elem_cnt,
}
use implso.Kernel.Bitmap.Storage.{buf_size, create_in_buf}

-- `base` is the address of the first page.
pub record Pool : Type 0 where
  pub used_map : Bitmap
  pub base : ℕ

-- The two static variables, and the bytes of the memory.
pub record Pools : Type 0 where
  pub kernel_pool : Pool
  pub user_pool : Pool
  pub bytes : ℕ → ℕ

-- The flags PAL_ASSERT, PAL_ZERO and PAL_USER.
pub record PallocFlags : Type 0 where
  pub pal_assert : Bool
  pub pal_zero : Bool
  pub pal_user : Bool

abbrev pub pgsize : ℕ
pgsize = 4096

-- memset of `cnt` bytes
abbrev pub fill : (at value cnt : ℕ) → (ℕ → ℕ) → ℕ → ℕ
fill at value cnt bytes a = if leb at a && ltb a (at + cnt) then value else bytes a

abbrev pub pool_of : Bool → Pools → Pool
pool_of true ps = ps.user_pool
pool_of false ps = ps.kernel_pool

abbrev pub put_pool : Bool → Pool → Pools → Pools
put_pool true p ps = record ps { user_pool = p }
put_pool false p ps = record ps { kernel_pool = p }

-- `if (flags & PAL_ZERO) memset (pages, 0, PGSIZE * page_cnt);`
unfoldable pub clean : (zero_it : Bool) (pages page_cnt : ℕ) → Pools → Pools
clean true pages page_cnt ps = record ps { bytes = fill pages 0 (pgsize * page_cnt) ps.bytes }
clean false pages page_cnt ps = ps

-- What follows the search for pages.
unfoldable pub give : PallocFlags → (page_cnt : ℕ) → ℕ × Bitmap → Pools → Run (Option ℕ × Pools)
give flags page_cnt (page_idx, map) ps =
    let pool = pool_of flags.pal_user ps in
    let pages = pool.base + pgsize * page_idx in
    let ps' = put_pool flags.pal_user (record pool { used_map = map }) ps in
    if page_idx == bitmap_error
    then (assert (not flags.pal_assert) >> ok (none, ps'))
    else ok (some pages, clean flags.pal_zero pages page_cnt ps')

unfoldable pub get_multiple : PallocFlags → (page_cnt : ℕ) → Pools → Run (Option ℕ × Pools)
get_multiple flags page_cnt ps = if page_cnt == 0 then ok (none, ps) else (do
  found ← scan_and_flip (pool_of flags.pal_user ps).used_map 0 page_cnt false
  give flags page_cnt found ps)

unfoldable pub get_page : PallocFlags → Pools → Run (Option ℕ × Pools)
get_page flags ps = get_multiple flags 1 ps

unfoldable pub page_from_pool : Pool → (page : ℕ) → Bool
page_from_pool pool page =
    let start_page = pool.base / pgsize in
    leb start_page (page / pgsize) && ltb (page / pgsize) (start_page + size pool.used_map)

-- The part of palloc_free_multiple behind the choice of the pool, `user` or not.
unfoldable pub free_from : (user : Bool) (pages page_cnt : ℕ) → Pools → Run Pools
free_from user pages page_cnt ps = do
  let pool = pool_of user ps
  let page_idx = pages / pgsize - pool.base / pgsize
  used ← all pool.used_map page_idx page_cnt
  assert used
  map ← set_multiple pool.used_map page_idx page_cnt false
  ok (record (put_pool user (record pool { used_map = map }) ps) {
    bytes = fill pages 0xcc (pgsize * page_cnt) ps.bytes;
  })

-- `pages` is an address, and 0 is NULL.
unfoldable pub free_multiple : (pages page_cnt : ℕ) → Pools → Run Pools
free_multiple pages page_cnt ps = do
  assert (pages % pgsize == 0)
  if (pages == 0) || (page_cnt == 0)
      then ok ps
      else if page_from_pool ps.kernel_pool pages
      then free_from false pages page_cnt ps
      else if page_from_pool ps.user_pool pages
      then free_from true pages page_cnt ps
      else panic

unfoldable pub free_page : (page : ℕ) → Pools → Run Pools
free_page page ps = free_multiple page 1 ps

-- The word of four bytes, lowest byte first, and `cnt` words from an address on.
unfoldable pub word_at : (ℕ → ℕ) → ℕ → ℕ
word_at bytes a =
    bytes a % 256
    + (bytes (a + 1) % 256 * 256 + (bytes (a + 2) % 256 * 65536 + bytes (a + 3) % 256 * 16777216))

unfoldable pub words_at : (ℕ → ℕ) → (a cnt : ℕ) → List ℕ
words_at bytes a zero = []
words_at bytes a (suc cnt) = word_at bytes a ∷ words_at bytes (a + 4) cnt

-- `DIV_ROUND_UP (bitmap_buf_size (page_cnt), PGSIZE)`
unfoldable pub map_pages : (page_cnt : ℕ) → ℕ
map_pages page_cnt = add_size (buf_size page_cnt) (pgsize - 1) / pgsize

-- The pool without its first pages, which the bitmap takes: its words follow a header of 8 bytes.
unfoldable pub init_pool : (bytes : ℕ → ℕ) (base page_cnt : ℕ) → Run Pool
init_pool bytes base page_cnt = do
  let bm_pages = map_pages page_cnt
  assert (leb bm_pages page_cnt)
  let left = page_cnt - bm_pages
  used_map ← create_in_buf (bm_pages * pgsize) (words_at bytes (base + 8) (elem_cnt left)) left
  ok (record { used_map = used_map; base = base + bm_pages * pgsize })

-- LOADER_PHYS_BASE, where the kernel sees the physical memory
abbrev pub phys_base : ℕ
phys_base = 0xc0000000

-- ptov, an addition of 32 bits
unfoldable pub ptov : (paddr : ℕ) → Run ℕ
ptov paddr = do assert (ltb paddr phys_base); ok ((paddr + phys_base) % 2 ^ 32)

-- `if (user_pages > user_page_limit) user_pages = user_page_limit;` for half of the pages
unfoldable pub user_share : (user_page_limit free_pages : ℕ) → ℕ
user_share user_page_limit free_pages =
    if ltb user_page_limit (free_pages / 2) then user_page_limit else free_pages / 2

-- The pools of the pages from an address on. The bytes of the memory stay as they are: those that the
-- bitmaps take are not read as pages.
unfoldable pub divide : (user_page_limit free_start free_pages : ℕ) → (ℕ → ℕ) → Run Pools
divide user_page_limit free_start free_pages bytes = do
  let user_pages = user_share user_page_limit free_pages
  let kernel_pages = free_pages - user_pages
  kernel_pool ← init_pool bytes free_start kernel_pages
  user_pool ← init_pool bytes (free_start + kernel_pages * pgsize) user_pages
  ok (record { kernel_pool = kernel_pool; user_pool = user_pool; bytes = bytes })

unfoldable pub palloc_init : (user_page_limit init_ram_pages : ℕ) → (ℕ → ℕ) → Run Pools
palloc_init user_page_limit init_ram_pages bytes = do
  free_start ← ptov (1024 * 1024)
  free_end ← ptov (init_ram_pages * pgsize)
  divide user_page_limit free_start ((free_end + 2 ^ 32 - free_start) % 2 ^ 32 / pgsize) bytes
