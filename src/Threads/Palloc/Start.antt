-- ===== src/Threads/Palloc/Start.antt =====
-- palloc_init of threads/palloc.c: the pools at the start of the kernel.
use implso.Prelude.{
  ℕ, zero, suc, ◌+◌, ◌-◌, ◌*◌, ◌/◌, ◌%◌, ◌^◌, ◌≤◌, ◌<◌, ◌≡◌, ◌≢◌, refl, ap, true, false, length,
  get_or, ltb, leb, arith, Bool-cases, inl, inr,
}
use implso.Prelude.Run
use implso.Prelude.Run.{Run, ok, ◌>>=◌, Returns, returns, pass}
use implso.Kernel.Bitmap.{elem_cnt}
use implso.Kernel.Bitmap.Single.{bit}
use implso.Kernel.Bitmap.Storage.{buf_size, create_in_buf, set_all-IsCleared}
use implso.Threads.Palloc.{
  Pool, Pools, pgsize, phys_base, word_at, words_at, map_pages, init_pool, ptov, user_share, divide,
  palloc_init,
}
use implso.Threads.Palloc.Grants.{IsPool, IsPools}

length-words_at : (bytes : ℕ → ℕ) (a cnt : ℕ) → length (words_at bytes a cnt) ≡ cnt
unfolding words_at
length-words_at bytes a zero = refl
length-words_at bytes a (suc cnt) = ap suc (length-words_at bytes (a + 4) cnt)

word_at-bound : (bytes : ℕ → ℕ) (a : ℕ) → word_at bytes a < 2 ^ 32
unfolding word_at
word_at-bound bytes a = omega arith

words_at-bound : (bytes : ℕ → ℕ) (a cnt i : ℕ) → get_or (words_at bytes a cnt) i 0 < 2 ^ 32
unfolding words_at
words_at-bound bytes a zero i = omega arith
words_at-bound bytes a (suc cnt) zero = word_at-bound bytes a
words_at-bound bytes a (suc cnt) (suc i) = words_at-bound bytes (a + 4) cnt i

-- A pool of all but the pages of the bitmap, of which none is in use.
pub record Fresh (base page_cnt : ℕ) (p : Pool) : Type 0 where
  pub pool : IsPool p
  pub start : p.base ≡ base + map_pages page_cnt * pgsize
  pub sized : p.used_map.bit_cnt + map_pages page_cnt ≡ page_cnt
  pub free : (j : ℕ) → j < p.used_map.bit_cnt → bit p.used_map j ≡ false

map_pages_bound : (page_cnt : ℕ) → 0 < page_cnt → page_cnt < 2 ^ 20 → map_pages page_cnt ≤ page_cnt
unfolding map_pages buf_size
map_pages_bound page_cnt some_pages small = omega (arith, some_pages, small)

map_fits :
    (page_cnt : ℕ)
    → page_cnt < 2 ^ 20
    → buf_size (page_cnt - map_pages page_cnt) ≤ map_pages page_cnt * pgsize
unfolding map_pages buf_size
map_fits page_cnt small = omega (arith, small)

init_pool_lem :
    (bytes : ℕ → ℕ) (base page_cnt : ℕ)
    → 0 < page_cnt
    → page_cnt < 2 ^ 20
    → base % pgsize ≡ 0
    → base ≢ 0
    → Returns (Fresh base page_cnt) (init_pool bytes base page_cnt)
unfolding init_pool create_in_buf
init_pool_lem bytes base page_cnt some_pages small aligned ne =
    let enough = map_pages_bound page_cnt some_pages small in
    pass {b = leb (map_pages page_cnt) page_cnt} (ground (arith, enough)) (
      Run.bind
        (pass {b = leb (buf_size (page_cnt - map_pages page_cnt)) (map_pages page_cnt * pgsize)}
          (ground (arith, map_fits page_cnt small))
          (set_all-IsCleared (page_cnt - map_pages page_cnt)
            (words_at bytes (base + 8) (elem_cnt (page_cnt - map_pages page_cnt)))
            (omega (arith, small)) (length-words_at bytes (base + 8) _)
            (words_at-bound bytes (base + 8) _)))
        (λ b c. returns (record {
          pool = record {
            valid = c.valid;
            aligned = omega (arith, aligned);
            nonnull = λ e. ne (omega (arith, e));
          };
          start = refl;
          sized = omega (arith, c.sized, enough);
          free = λ j lt. c.empty j (omega (arith, lt, c.sized));
        })))

-- The pools at the start: of all pages above the first megabyte, `user` ones or less are the user pool.
pub record Started (limit ram : ℕ) (ps : Pools) : Type 0 where
  pub pools : IsPools ps
  pub free :
      ((j : ℕ) → j < ps.kernel_pool.used_map.bit_cnt → bit ps.kernel_pool.used_map j ≡ false)
      × ((j : ℕ) → j < ps.user_pool.used_map.bit_cnt → bit ps.user_pool.used_map j ≡ false)
  pub limited : ps.user_pool.used_map.bit_cnt ≤ limit
  pub within : ps.user_pool.base + ps.user_pool.used_map.bit_cnt * pgsize ≡ phys_base + ram * pgsize

ptov_lem : (paddr : ℕ) → paddr < phys_base → ptov paddr ≡ ok ((paddr + phys_base) % 2 ^ 32)
unfolding ptov
ptov_lem paddr lt = let e : ltb paddr phys_base ≡ true = ground (arith, lt) in rw e refl

user_share-bounds :
    (limit free_pages : ℕ)
    → 0 < limit
    → 2 ≤ free_pages
    → (0 < user_share limit free_pages)
      × (user_share limit free_pages ≤ limit)
      × (2 * user_share limit free_pages ≤ free_pages)
unfolding user_share
user_share-bounds limit free_pages some_pages enough =
    elim (Bool-cases (ltb limit (free_pages / 2))) [
      | inl e ↦ rw e (omega arith, omega arith, ground (arith, e))
      | inr e ↦ rw e (omega (arith, enough), ground (arith, e), omega arith)
    ]

divide_lem :
    (limit start free_pages ram : ℕ) (bytes : ℕ → ℕ)
    → 0 < limit
    → 2 ≤ free_pages
    → free_pages < 2 ^ 20
    → start % pgsize ≡ 0
    → start ≢ 0
    → start + free_pages * pgsize ≡ phys_base + ram * pgsize
    → Returns (Started limit ram) (divide limit start free_pages bytes)
unfolding divide
divide_lem limit start free_pages ram bytes some_pages enough small aligned ne total =
    let user = user_share limit free_pages in
    let (positive, limited, half) = user_share-bounds limit free_pages some_pages enough in
    Run.bind
      (init_pool_lem bytes start (free_pages - user) (omega (arith, half, enough))
        (omega (arith, small)) aligned ne)
      (λ k p.
        Run.bind
          (init_pool_lem bytes (start + (free_pages - user) * pgsize) user positive
            (omega (arith, small, half)) (omega (arith, aligned)) (λ e. ne (omega (arith, e))))
          (λ u q. returns (record {
            pools = record {
              kernel = p.pool;
              user = q.pool;
              apart = omega (arith, p.start, p.sized, q.start, aligned);
            };
            free = (p.free, q.free);
            limited = omega (arith, q.sized, limited);
            within = omega (arith, q.start, q.sized, total, half);
          })))

-- With more than the first megabyte and two pages of memory, at most 1 GB, and a positive limit,
-- palloc_init does not panic. The pools have valid maps and no page in use, the pages of the kernel
-- stand before those of the users, which are at most as many as the limit, and the user pool ends
-- where the memory ends.
pub palloc_init_lem :
    (limit ram : ℕ) (bytes : ℕ → ℕ)
    → 0 < limit
    → 258 ≤ ram
    → ram ≤ 2 ^ 18
    → Returns (Started limit ram) (palloc_init limit ram bytes)
unfolding palloc_init
palloc_init_lem limit ram bytes some_pages enough small =
    let e : ((ram * pgsize + phys_base) % 2 ^ 32 + 2 ^ 32 - (1024 * 1024 + phys_base))
          % 2 ^ 32
          / pgsize
        ≡ ram - 256 =
      omega (arith, enough, small) in
    let first : (1024 * 1024 + phys_base) % 2 ^ 32 ≡ 1024 * 1024 + phys_base = omega arith in
    rw (ptov_lem (1024 * 1024) (omega arith), ptov_lem (ram * pgsize) (omega (arith, small)))
      (rw (first, e)
        (divide_lem limit (1024 * 1024 + phys_base) (ram - 256) ram bytes some_pages
          (omega (arith, enough)) (omega (arith, small)) (omega arith) (λ q. omega (arith, q))
          (omega (arith, enough))))
