-- ===== src/Threads/Palloc/Grants.antt =====
-- The pages that threads/palloc.c gives and takes back, by the map of a pool.
use implso.Prelude.{
  ℕ, ◌+◌, ◌*◌, ◌/◌, ◌%◌, ◌≤◌, ◌<◌, ◌≡◌, ◌≢◌, refl, ap, ◌∙◌, Bool, true, false, not, ◌&&◌, Option,
  none, some, ltb, leb, ◌==◌, if◌then◌else◌, arith,
}
use implso.Prelude.Run
use implso.Prelude.Run.{Run, ok, ◌>>=◌, Returns, returns, pass}
use implso.Kernel.Bitmap.{Bitmap, bitmap_error}
use implso.Kernel.Bitmap.Range.{inside, AllAre}
use implso.Kernel.Bitmap.Scan.{Flipped, unchanged, flipped, scan_and_flip_lem}
use implso.Kernel.Bitmap.Single.{IsValid, bit, Becomes}
use implso.Threads.Palloc.{
  Pool, Pools, PallocFlags, pgsize, pool_of, put_pool, clean, give, get_multiple,
}

-- A pool with a valid map, whose pages start at a page of the memory that is not page 0.
pub record IsPool (p : Pool) : Type 0 where
  pub valid : IsValid p.used_map
  pub aligned : p.base % pgsize ≡ 0
  pub nonnull : p.base ≢ 0

-- The pages of the kernel stand before those of the users.
pub record IsPools (ps : Pools) : Type 0 where
  pub kernel : IsPool ps.kernel_pool
  pub user : IsPool ps.user_pool
  pub apart :
      ps.kernel_pool.base / pgsize + ps.kernel_pool.used_map.bit_cnt ≤ ps.user_pool.base / pgsize

pub pool_of-IsPool : (user : Bool) (ps : Pools) → IsPools ps → IsPool (pool_of user ps)
pool_of-IsPool true ps q = q.user
pool_of-IsPool false ps q = q.kernel

-- A group of free pages that is given, and the pools after that.
pub record Grant (flags : PallocFlags) (page_cnt : ℕ) (ps : Pools) (page : ℕ) (ps' : Pools)
    : Type 0 where
  pub index : ℕ
  pub address : page ≡ (pool_of flags.pal_user ps).base + pgsize * index
  pub fits : index + page_cnt ≤ (pool_of flags.pal_user ps).used_map.bit_cnt
  pub free : AllAre (bit (pool_of flags.pal_user ps).used_map) false index page_cnt
  pub map : Bitmap
  pub used :
      Becomes
        (pool_of flags.pal_user ps).used_map
        (λ j. if inside index page_cnt j then true else bit (pool_of flags.pal_user ps).used_map j)
        map
  pub pools :
      (pool_of flags.pal_user ps' ≡ record (pool_of flags.pal_user ps) { used_map = map })
      × (pool_of (not flags.pal_user) ps' ≡ pool_of (not flags.pal_user) ps)
  pub bytes :
      (a : ℕ)
      → ps'.bytes a ≡ (
          if flags.pal_zero && (leb page a && ltb a (page + pgsize * page_cnt))
          then 0
          else ps.bytes a)

pub data GetResult (flags : PallocFlags) (page_cnt : ℕ) (ps : Pools)
    : Option ℕ × Pools → Type 0 where
  refused :
      (ps' : Pools)
      → ((k : ℕ)
          → k + page_cnt ≤ (pool_of flags.pal_user ps).used_map.bit_cnt
          → ¬ AllAre (bit (pool_of flags.pal_user ps).used_map) false k page_cnt)
      → ps'.bytes ≡ ps.bytes
      → GetResult flags page_cnt ps (none, ps')
  granted :
      (page : ℕ) (ps' : Pools)
      → Grant flags page_cnt ps page ps'
      → GetResult flags page_cnt ps (some page, ps')

pub put_pool_lem :
    (user : Bool) (p : Pool) (ps : Pools)
    → (pool_of user (put_pool user p ps) ≡ p)
      × (pool_of (not user) (put_pool user p ps) ≡ pool_of (not user) ps)
put_pool_lem true p ps = (refl, refl)
put_pool_lem false p ps = (refl, refl)

put_pool_bytes : (user : Bool) (p : Pool) (ps : Pools) → (put_pool user p ps).bytes ≡ ps.bytes
put_pool_bytes true p ps = refl
put_pool_bytes false p ps = refl

clean_lem :
    (zero_it : Bool) (page page_cnt : ℕ) (ps : Pools)
    → ((user : Bool) → pool_of user (clean zero_it page page_cnt ps) ≡ pool_of user ps)
      × ((a : ℕ)
          → (clean zero_it page page_cnt ps).bytes a ≡ (
              if zero_it && (leb page a && ltb a (page + pgsize * page_cnt))
              then 0
              else ps.bytes a))
unfolding clean
clean_lem true page page_cnt ps = (λ user. same user, λ a. refl)
  where
    same : (user : Bool) → pool_of user (clean true page page_cnt ps) ≡ pool_of user ps
    same true = refl
    same false = refl
clean_lem false page page_cnt ps = (λ user. refl, λ a. refl)

give_lem :
    (flags : PallocFlags) (page_cnt : ℕ) (ps : Pools) (r : ℕ × Bitmap)
    → flags.pal_assert ≡ false
    → IsPools ps
    → Flipped (pool_of flags.pal_user ps).used_map false 0 page_cnt r
    → Returns (GetResult flags page_cnt ps) (give flags page_cnt r ps)
unfolding give
give_lem flags page_cnt ps (i, map) calm q (unchanged nowhere) =
    pass {b = not flags.pal_assert} (ap not calm) (
      returns (
        refused _ (λ k h. nowhere k (omega arith) h)
          (put_pool_bytes flags.pal_user (record (pool_of flags.pal_user ps) { used_map = map })
            ps)))
give_lem flags page_cnt ps (i, map) calm q (flipped _ _ lo fits free earlier becomes) =
    let pool = pool_of flags.pal_user ps in
    let kept = put_pool_lem flags.pal_user (record pool { used_map = map }) ps in
    let cleaned =
      clean_lem flags.pal_zero (pool.base + pgsize * i) page_cnt
        (put_pool flags.pal_user (record pool { used_map = map }) ps) in
    let wide = (pool_of-IsPool flags.pal_user ps q).valid.fits in
    let ne : (i == bitmap_error) ≡ false = ground (arith, fits, wide) in
    rw ne (
      returns (
        granted _ _ (record {
          index = i;
          address = refl;
          fits = fits;
          free = free;
          map = map;
          used = becomes;
          pools = (cleaned.0 flags.pal_user ∙ kept.0, cleaned.0 (not flags.pal_user) ∙ kept.1);
          bytes = λ a.
              cleaned.1 a
              ∙ ap
                  (λ b.
                    if flags.pal_zero
                      && (leb (pool.base + pgsize * i) a
                          && ltb a (pool.base + pgsize * i + pgsize * page_cnt))
                    then 0
                    else b a)
                  (put_pool_bytes flags.pal_user (record pool { used_map = map }) ps);
        })))

-- Where the maps of both pools are valid, palloc_get_multiple of some pages, without PAL_ASSERT,
-- does not panic. It returns none only if the pool has no free group of that size, and changes no
-- byte then; otherwise it gives the address of a group of free pages within the pool, which is then
-- in use while the rest of the pools has not changed, and with PAL_ZERO exactly the bytes of these
-- pages are 0.
pub get_multiple_lem :
    (flags : PallocFlags) (page_cnt : ℕ) (ps : Pools)
    → flags.pal_assert ≡ false
    → 0 < page_cnt
    → IsPools ps
    → Returns (GetResult flags page_cnt ps) (get_multiple flags page_cnt ps)
unfolding get_multiple
get_multiple_lem flags page_cnt ps calm some_pages q =
    let ne : (page_cnt == 0) ≡ false = ground arith in
    rw ne (
      Run.bind
        (scan_and_flip_lem (pool_of flags.pal_user ps).used_map
          (pool_of-IsPool flags.pal_user ps q).valid 0 page_cnt false (omega arith))
        (λ r f. give_lem flags page_cnt ps r calm q f))
