-- ===== src/Tests/Memory.antt =====
-- threads/palloc.c on pools of ten pages, vm/frame_table.c on two frames, and vm/sup_page_table.c on a
-- table whose only page is the one at 0x5000.
use implso.Prelude.{
  ℕ, ◌*◌, ◌≡◌, refl, true, false, [], ◌∷◌, arith, ◌==◌, if◌then◌else◌, Bool-cases, inl, inr,
}
use implso.Prelude.Run.{Returns}
use implso.Kernel.Hash
use implso.Kernel.Hash.{Hash}
use implso.Kernel.Hash.Bytes.{hash_int, hash_bytes, bytes_loop}
use implso.Kernel.Linked.Distinct.{none_left, one_more}
use implso.Kernel.Queue.{has}
use implso.Threads.Palloc.{Pools, PallocFlags, get_multiple, palloc_init}
use implso.Threads.Palloc.Frees.{FreesBack, get_multiple-free_multiple}
use implso.Threads.Palloc.Grants.{IsPools, GetResult, get_multiple_lem}
use implso.Threads.Palloc.Start.{Started, palloc_init_lem}
use implso.Vm.Frames.{Frames, pop_lru}
use implso.Vm.Frames.Clock.{Victim, pop_lru_lem}
use implso.Vm.Pages
use implso.Vm.Pages.{SupPage, SupPageTable, zero_entry, pg_round_down, sup_page_hash, sup_page_less}
use implso.Vm.Pages.Entries.{IsPages, FoundPage, find_page_lem}
use implso.Tests.Bitmaps.{ten, ten-IsValid}

abbrev pools : Pools
pools = record {
  kernel_pool = record { used_map = ten; base = 0x10000 };
  user_pool = record { used_map = ten; base = 0x20000 };
  bytes = λ a. 1;
}

pools-IsPools : IsPools pools
pools-IsPools = record {
  kernel = record { valid = ten-IsValid; aligned = refl; nonnull = λ e. omega (arith, e) };
  user = record { valid = ten-IsValid; aligned = refl; nonnull = λ e. omega (arith, e) };
  apart = omega arith;
}

abbrev user_zero : PallocFlags
user_zero = record { pal_assert = false; pal_zero = true; pal_user = true }

get_multiple_lem_example : Returns (GetResult user_zero 2 pools) (get_multiple user_zero 2 pools)
get_multiple_lem_example = get_multiple_lem user_zero 2 pools refl (omega arith) pools-IsPools

get_multiple-free_multiple_example :
    Returns (FreesBack user_zero 2 pools) (get_multiple user_zero 2 pools)
get_multiple-free_multiple_example =
    get_multiple-free_multiple user_zero 2 pools refl (omega arith) pools-IsPools

-- The entry at the address a is that of page a.
abbrev entry_at : ℕ → SupPage
entry_at a = zero_entry (a * 4096)

-- Page 5 of thread 7 has been accessed, and page 6 has not.
abbrev frames : Frames
frames = record {
  entries = λ fte. record { frame = fte; owner = 7; aux = if fte == 1 then 5 else 6 };
  table = 1 ∷ 2 ∷ [];
  pages = entry_at;
  has_pagedir = λ owner. true;
  accessed = λ owner vaddr. vaddr == 0x5000;
}

pop_lru_lem_example : Victim frames (pop_lru 90 frames)
pop_lru_lem_example = pop_lru_lem 90 frames

abbrev table : Hash
table = record { elem_cnt = 1; bucket_cnt = 4; buckets = λ i. if i == 1 then 5 ∷ [] else [] }

abbrev page_table : SupPageTable
page_table = record { pages = entry_at; table = table }

only_page : (i e : ℕ) → has e (table.buckets i) ≡ true → (i ≡ 1) × (e ≡ 5)
only_page i e h = ground (arith, h)

held-page :
    (x : ℕ)
    → has x (Hash.find_bucket (sup_page_hash entry_at) (sup_page_less entry_at) table x) ≡ true
    → x ≡ 5
unfolding Hash.find_bucket
held-page x h =
    (only_page (Hash.bucket_idx (sup_page_hash entry_at) (sup_page_less entry_at) table x) x h).1

page_table-IsPages : IsPages page_table
unfolding Hash.bucket_idx sup_page_hash hash_int hash_bytes bytes_loop
page_table-IsPages = record {
  placed = record {
    power = (2, refl);
    width = omega arith;
    placed = λ i e lt h. let (p, q) = only_page i e h in rw (p, q) refl;
    distinct = λ i lt. elim (Bool-cases (i == 1)) [
      | inl here ↦ rw here (one_more refl none_left)
      | inr there ↦ rw there none_left
    ];
  };
  counted = refl;
  bounded = omega arith;
  unique = λ a b h k e. ground (arith, held-page a h, held-page b k);
}

find_page_lem_example : FoundPage page_table (pg_round_down 0x5678) (Pages.find 9 0x5678 page_table)
find_page_lem_example = find_page_lem 9 0x5678 page_table page_table-IsPages refl

-- 4 MB of memory, of which at most 100 pages are the user pool.
palloc_init_lem_example : Returns (Started 100 1024) (palloc_init 100 1024 (λ a. 1))
palloc_init_lem_example =
    palloc_init_lem 100 1024 (λ a. 1) (omega arith) (omega arith) (omega arith)
