-- ===== src/Threads/Palloc/Frees.antt =====
-- The pages that threads/palloc.c takes back.
use implso.Prelude.{
  ℕ, ◌+◌, ◌-◌, ◌*◌, ◌/◌, ◌%◌, ◌≤◌, ◌<◌, ◌≡◌, ◌≢◌, refl, sym, ◌∙◌, Bool, true, false, not, ◌||◌,
  Option, some, ◌==◌, if◌then◌else◌, arith,
}
use implso.Prelude.Run
use implso.Prelude.Run.{Run, ok, ◌>>=◌, Returns, returns, pass}
use implso.Kernel.Bitmap.{Bitmap, size}
use implso.Kernel.Bitmap.Quantify.{all_lem}
use implso.Kernel.Bitmap.Range.{inside, AllAre, set_multiple_lem}
use implso.Kernel.Bitmap.Single.{IsValid, bit, Becomes}
use implso.Threads.Palloc.{
  Pool, Pools, PallocFlags, pgsize, fill, pool_of, put_pool, get_multiple, page_from_pool,
  free_from, free_multiple,
}
use implso.Threads.Palloc.Grants.{
  IsPools, GetResult, refused, granted, pool_of-IsPool, get_multiple_lem,
}

select_lem :
    (user : Bool) (page page_cnt : ℕ) (ps : Pools)
    → page % pgsize ≡ 0
    → page ≢ 0
    → page_cnt ≢ 0
    → page_from_pool (pool_of user ps) page ≡ true
    → (user ≡ true → page_from_pool ps.kernel_pool page ≡ false)
    → free_multiple page page_cnt ps ≡ free_from user page page_cnt ps
unfolding free_multiple
select_lem true page page_cnt ps a n m from other =
    let z : (page % pgsize == 0) ≡ true = ground (arith, a) in
    let o : ((page == 0) || (page_cnt == 0)) ≡ false = ground (arith, n, m) in
    rw (z, o, other refl, from)
select_lem false page page_cnt ps a n m from other =
    let z : (page % pgsize == 0) ≡ true = ground (arith, a) in
    let o : ((page == 0) || (page_cnt == 0)) ≡ false = ground (arith, n, m) in rw (z, o, from)

put_pool_with :
    (user : Bool) (p : Pool) (b : ℕ → ℕ) (ps : Pools)
    → pool_of user (record (put_pool user p ps) { bytes = b }) ≡ p
put_pool_with true p b ps = refl
put_pool_with false p b ps = refl

free_from_lem :
    (user : Bool) (page page_cnt i : ℕ) (ps : Pools) (p : Pool)
    → pool_of user ps ≡ p
    → page / pgsize - p.base / pgsize ≡ i
    → IsValid p.used_map
    → i + page_cnt ≤ p.used_map.bit_cnt
    → AllAre (bit p.used_map) true i page_cnt
    → Returns
        (λ ps'.
          Becomes p.used_map
            (λ j. if inside i page_cnt j then false else bit p.used_map j)
            (pool_of user ps').used_map)
        (free_from user page page_cnt ps)
unfolding free_from
free_from_lem user page page_cnt i ps p q e v fits used =
    rw (q, e)
      (Run.bind (all_lem p.used_map i page_cnt v fits) (λ r iff. rw (iff.1 used) (
        Run.bind (set_multiple_lem p.used_map i page_cnt v fits false) (λ map b. returns (
          rw
            (put_pool_with user (record p { used_map = map })
              (fill page 0xcc (pgsize * page_cnt) ps.bytes) ps)
            b)))))

-- The pool of the users begins behind that of the kernel.
not_kernel :
    (user : Bool) (page index : ℕ) (ps ps' : Pools)
    → IsPools ps
    → page ≡ (pool_of user ps).base + pgsize * index
    → pool_of (not user) ps' ≡ pool_of (not user) ps
    → user ≡ true
    → page_from_pool ps'.kernel_pool page ≡ false
unfolding page_from_pool size
not_kernel false page index ps ps' q address other e = absurd (ground (arith, e))
not_kernel true page index ps ps' q address other e =
    rw other (ground (arith, address, q.apart, q.user.aligned))

module _ (user : Bool) (page page_cnt index : ℕ) (ps ps' : Pools) (map : Bitmap) (q : IsPools ps)
    (some_pages : 0 < page_cnt) (address : page ≡ (pool_of user ps).base + pgsize * index)
    (fits : index + page_cnt ≤ (pool_of user ps).used_map.bit_cnt)
    (free : AllAre (bit (pool_of user ps).used_map) false index page_cnt)
    (used : Becomes
      (pool_of user ps).used_map
      (λ j. if inside index page_cnt j then true else bit (pool_of user ps).used_map j)
      map)
    (mine : pool_of user ps' ≡ record (pool_of user ps) { used_map = map })
    (other : pool_of (not user) ps' ≡ pool_of (not user) ps) where
  from_pool : page_from_pool (pool_of user ps') page ≡ true
  unfolding page_from_pool size
  from_pool =
      rw mine
        (ground (arith, address, used.sized, fits, some_pages, (pool_of-IsPool user ps q).aligned))

  freed :
      Returns
        (λ ps''. (j : ℕ) → bit (pool_of user ps'').used_map j ≡ bit (pool_of user ps).used_map j)
        (free_multiple page page_cnt ps')
  freed =
      let p = pool_of-IsPool user ps q in
      rw
        (select_lem user page page_cnt ps' (omega (arith, address, p.aligned))
          (λ e. p.nonnull (omega (arith, address, e))) (λ e. omega (arith, e)) from_pool
          (not_kernel user page index ps ps' q address other))
        (Run.mono
          (free_from_lem user page page_cnt index ps' (record (pool_of user ps) { used_map = map })
            mine (omega (arith, address, p.aligned)) used.valid (omega (arith, used.sized))
            (λ j lo hi. ground (arith, used.bits j)))
          (λ ps'' b j. ground (arith, b.bits j, used.bits j, free j)))

-- A group that is given may be freed, and the map of the pool is then what it was.
abbrev pub FreesBack : (flags : PallocFlags) (page_cnt : ℕ) (ps : Pools) → Option ℕ × Pools → Type 0
FreesBack flags page_cnt ps r =
    (page : ℕ)
    → r.0 ≡ some page
    → Returns
        (λ ps'.
          (j : ℕ)
          → bit (pool_of flags.pal_user ps').used_map j
            ≡ bit (pool_of flags.pal_user ps).used_map j)
        (free_multiple page page_cnt r.1)

frees_back :
    (flags : PallocFlags) (page_cnt : ℕ) (ps : Pools) (r : Option ℕ × Pools)
    → 0 < page_cnt
    → IsPools ps
    → GetResult flags page_cnt ps r
    → FreesBack flags page_cnt ps r
frees_back flags page_cnt ps (o, ps') some_pages q (refused _ _ _) page e =
    absurd (ground (arith, e))
frees_back flags page_cnt ps (o, ps') some_pages q (granted given _ g) page e =
    let same : given ≡ page = ground (arith, e) in
    freed flags.pal_user page page_cnt g.index ps ps' g.map q some_pages (sym same ∙ g.address)
      g.fits g.free g.used g.pools.0 g.pools.1

-- Where the maps of both pools are valid and the pages of the kernel stand before those of the
-- users, palloc_get_multiple of some pages, without PAL_ASSERT, does not panic. If it gives pages,
-- palloc_free_multiple of them in the state after that does not panic, and the same pages of the
-- pool are then in use as before.
pub get_multiple-free_multiple :
    (flags : PallocFlags) (page_cnt : ℕ) (ps : Pools)
    → flags.pal_assert ≡ false
    → 0 < page_cnt
    → IsPools ps
    → Returns (FreesBack flags page_cnt ps) (get_multiple flags page_cnt ps)
get_multiple-free_multiple flags page_cnt ps calm some_pages q =
    Run.mono (get_multiple_lem flags page_cnt ps calm some_pages q)
      (λ r g. frees_back flags page_cnt ps r some_pages q g)
