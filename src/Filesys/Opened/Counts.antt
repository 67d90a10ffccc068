-- ===== src/Filesys/Opened/Counts.antt =====
-- The open inodes of filesys/inode.c: one inode for a sector, and its openers counted.
use implso.Prelude.{
  ℕ, ◌+◌, ◌≤◌, ◌<◌, ◌≡◌, refl, sym, ap, ◌≢◌, true, false, not, ◌&&◌, ◌||◌, List, [], ◌∷◌, Option,
  none, some, ◌==◌, if◌then◌else◌, arith, ==_self, Bool-cases, inl, inr,
}
use implso.Prelude.Run
use implso.Prelude.Run.{Run, ok, Returns, returns}
use implso.Devices.Block.{read-ok}
use implso.Kernel.Queue.{has, has-remove}
use implso.Filesys.FreeMap.{MapFile}
use implso.Filesys.Opened
use implso.Filesys.Opened.{Inode, Fs}

-- The table: every open inode has an opener, is denied at most once by each of them, and no two are
-- of the same sector.
pub record IsOpenTable (fs : Fs) : Type 0 where
  pub opened : (a : ℕ) → has a fs.open_inodes ≡ true → 0 < (fs.inodes a).open_cnt
  pub denied :
      (a : ℕ) → has a fs.open_inodes ≡ true → (fs.inodes a).deny_write_cnt ≤ (fs.inodes a).open_cnt
  pub one_each :
      (a b : ℕ)
      → has a fs.open_inodes ≡ true
      → has b fs.open_inodes ≡ true
      → (fs.inodes a).sector ≡ (fs.inodes b).sector
      → a ≡ b

-- `a` is the inode of a sector after inode_open: it has one opener more, if it was open, and else it
-- is new with one opener; the other inodes are as they were.
pub record Opens (sector a : ℕ) (fs fs' : Fs) : Type 0 where
  pub table : IsOpenTable fs'
  pub listed : has a fs'.open_inodes ≡ true
  pub of_sector : (fs'.inodes a).sector ≡ sector
  pub count :
      (fs'.inodes a).open_cnt ≡ (if has a fs.open_inodes then (fs.inodes a).open_cnt + 1 else 1)
  pub others : (b : ℕ) → b ≢ a → fs'.inodes b ≡ fs.inodes b
  pub members : (b : ℕ) → has b fs'.open_inodes ≡ (a == b) || has b fs.open_inodes

-- No open inode is of the sector, and the next memory of malloc is none; nothing changes but that this
-- answer of malloc is used up.
pub record IsRefused (sector : ℕ) (fs fs' : Fs) : Type 0 where
  pub not_open : (a : ℕ) → has a fs.open_inodes ≡ true → (fs.inodes a).sector ≢ sector
  pub no_block : (Opened.malloc fs).0 ≡ none
  pub same : fs' ≡ (Opened.malloc fs).1

pub data OpenResult (sector : ℕ) (fs : Fs) : Option ℕ × Fs → Type 0 where
  no_memory : (fs' : Fs) → IsRefused sector fs fs' → OpenResult sector fs (none, fs')
  open_at : (a : ℕ) (fs' : Fs) → Opens sector a fs fs' → OpenResult sector fs (some a, fs')

data FoundOpen (fs : Fs) (sector : ℕ) (xs : List ℕ) : Option ℕ → Type 0 where
  none_open :
      ((a : ℕ) → has a xs ≡ true → (fs.inodes a).sector ≢ sector) → FoundOpen fs sector xs none
  is_open :
      (a : ℕ) → has a xs ≡ true → (fs.inodes a).sector ≡ sector → FoundOpen fs sector xs (some a)

find_open_lem :
    (fs : Fs) (sector : ℕ) (xs : List ℕ) → FoundOpen fs sector xs (Opened.find_open fs sector xs)
unfolding Opened.find_open
find_open_lem fs sector [] = none_open (λ a i. absurd (ground (arith, i)))
find_open_lem fs sector (x ∷ xs) = elim (Bool-cases ((fs.inodes x).sector == sector)) [
  | inl here ↦ rw here (is_open x (ground arith) (ground arith))
  | inr there ↦ rw there (further there (find_open_lem fs sector xs))
]
  where
    further :
        {o : Option ℕ}
        → ((fs.inodes x).sector == sector) ≡ false
        → FoundOpen fs sector xs o
        → FoundOpen fs sector (x ∷ xs) o
    further there (none_open n) = none_open (λ a i e. elim (Bool-cases (x == a)) [
      | inl q ↦ ground (arith, q, there, e)
      | inr q ↦ n a (ground (arith, i, q)) e
    ])
    further there (is_open a i e) = is_open a (ground (arith, i)) e

reopen_lem :
    (a sector : ℕ) (fs : Fs)
    → IsOpenTable fs
    → has a fs.open_inodes ≡ true
    → (fs.inodes a).sector ≡ sector
    → Opens sector a fs (Opened.reopen a fs)
unfolding Opened.reopen
reopen_lem a sector fs t i e = record {
  table = record {
    opened = λ b j. ground (arith, t.opened b j);
    denied = λ b j. ground (arith, t.denied b j);
    one_each = λ b c j k q. ground (arith, t.one_each b c j k, q);
  };
  listed = i;
  of_sector = ground (arith, e);
  count = ground (arith, i);
  others = λ b n. ground (arith, n);
  members = λ b. ground (arith, i);
}

enter_lem :
    (a sector : ℕ) (fs : Fs)
    → IsOpenTable fs
    → has a fs.open_inodes ≡ false
    → ((b : ℕ) → has b fs.open_inodes ≡ true → (fs.inodes b).sector ≢ sector)
    → sector < fs.dev.size
    → Returns (Opens sector a fs) (Opened.enter sector a fs)
unfolding Opened.enter
enter_lem a sector fs t new other lt = rw (read-ok fs.dev sector lt) (
    returns (record {
      table = record {
        opened = λ b j. ground (arith, t.opened b, j);
        denied = λ b j. ground (arith, t.denied b, j);
        one_each = λ b c j k q. ground (arith, t.one_each b c, j, k, q, other b, other c);
      };
      listed = ground arith;
      of_sector = ground arith;
      count = ground (arith, new);
      others = λ b n. ground (arith, n);
      members = λ b. refl;
    }))

same_table :
    {fs : Fs} (rest : List (Option ℕ)) → IsOpenTable fs → IsOpenTable (record fs { memory = rest })
same_table rest t = record { opened = t.opened; denied = t.denied; one_each = t.one_each }

memory-Opens :
    {sector a : ℕ} {fs fs' : Fs} (rest : List (Option ℕ))
    → Opens sector a (record fs { memory = rest }) fs'
    → Opens sector a fs fs'
memory-Opens rest p = record {
  table = p.table;
  listed = p.listed;
  of_sector = p.of_sector;
  count = p.count;
  others = p.others;
  members = p.members;
}

-- The memory that malloc gives is not that of an open inode.
abbrev pub GivesNew : Fs → Type 0
GivesNew fs = (a : ℕ) → (Opened.malloc fs).0 ≡ some a → has a fs.open_inodes ≡ false

-- inode_open of a sector of the device, where malloc gives no memory of an open inode, does not
-- panic. It returns none only if no open inode is of the sector and malloc gives no memory, and
-- then changes nothing but that this answer of malloc is used up. Else it gives the inode of the
-- sector: the open one, with an opener more, or a new one with one opener; the other inodes are as
-- they were, and there is one open inode for a sector.
pub open_inode_lem :
    (sector : ℕ) (fs : Fs)
    → IsOpenTable fs
    → GivesNew fs
    → sector < fs.dev.size
    → Returns (OpenResult sector fs) (Opened.open_inode sector fs)
unfolding Opened.open_inode Opened.open_found Opened.enter_block Opened.next_block Opened.enter
open_inode_lem sector fs t new lt = found _ (find_open_lem fs sector fs.open_inodes)
  where
    allocated :
        (bs : List (Option ℕ))
        → ((a : ℕ) → (Opened.next_block bs fs).0 ≡ some a → has a fs.open_inodes ≡ false)
        → ((b : ℕ) → has b fs.open_inodes ≡ true → (fs.inodes b).sector ≢ sector)
        → bs ≡ fs.memory
        → Returns (OpenResult sector fs) (Opened.enter_block sector (Opened.next_block bs fs))
    allocated [] new other e = returns (
        no_memory fs (record {
          not_open = other;
          no_block = ap (λ bs. (Opened.next_block bs fs).0) (sym e);
          same = ap (λ bs. (Opened.next_block bs fs).1) e;
        }))
    allocated (none ∷ rest) new other e = returns (
        no_memory _ (record {
          not_open = other;
          no_block = ap (λ bs. (Opened.next_block bs fs).0) (sym e);
          same = ap (λ bs. (Opened.next_block bs fs).1) e;
        }))
    allocated (some a ∷ rest) new other e =
        Run.bind
          (enter_lem a sector (record fs { memory = rest }) (same_table rest t) (new a refl) other
            lt)
          (λ fs' p. returns (open_at a fs' (memory-Opens rest p)))

    found :
        (o : Option ℕ)
        → FoundOpen fs sector fs.open_inodes o
        → Returns (OpenResult sector fs) (Opened.open_found sector o fs)
    found none (none_open other) = allocated fs.memory new other refl
    found (some a) (is_open _ i e) = returns (open_at a _ (reopen_lem a sector fs t i e))

-- inode_close: an opener less; behind the last one the inode leaves the list.
pub record Closes (a : ℕ) (fs fs' : Fs) : Type 0 where
  pub table : IsOpenTable fs'
  pub members :
      (b : ℕ)
      → has b fs'.open_inodes
        ≡ not ((a == b) && ((fs.inodes a).open_cnt == 1)) && has b fs.open_inodes
  pub count : has a fs'.open_inodes ≡ true → (fs'.inodes a).open_cnt + 1 ≡ (fs.inodes a).open_cnt
  pub others : (b : ℕ) → b ≢ a → fs'.inodes b ≡ fs.inodes b

-- inode_close of an open inode that is not marked for removal and that some opener does not deny
-- does not panic and keeps one open inode for a sector: it takes an opener away, behind the last of
-- them the inode leaves the list, and the other inodes are as they were.
pub close_inode_lem :
    (disk : MapFile) (a : ℕ) (fs : Fs)
    → IsOpenTable fs
    → has a fs.open_inodes ≡ true
    → (fs.inodes a).removed ≡ false
    → (fs.inodes a).deny_write_cnt < (fs.inodes a).open_cnt
    → Returns (Closes a fs) (Opened.close_inode disk a fs)
unfolding Opened.close_inode Opened.discard
close_inode_lem disk a fs t i kept more = elim (Bool-cases ((fs.inodes a).open_cnt == 1)) [
  | inl last ↦
      rw (last, ==_self a, kept)
        (returns (record {
          table = record {
            opened = λ b j. ground (arith, t.opened b, j, has-remove a b fs.open_inodes);
            denied = λ b j. ground (arith, t.denied b, j, has-remove a b fs.open_inodes);
            one_each = λ b c j k q. ground (
              arith,
              t.one_each b c,
              j,
              k,
              q,
              has-remove a b fs.open_inodes,
              has-remove a c fs.open_inodes,
            );
          };
          members = λ b. ground (arith, last, has-remove a b fs.open_inodes);
          count = λ j. ground (arith, j, has-remove a a fs.open_inodes);
          others = λ b n. ground (arith, n);
        }))
  | inr further ↦ rw further (
      returns (record {
        table = record {
          opened = λ b j. ground (arith, t.opened b, j, further);
          denied = λ b j. ground (arith, t.denied b, j, more);
          one_each = λ b c j k q. ground (arith, t.one_each b c, j, k, q);
        };
        members = λ b. ground (arith, further);
        count = λ j. ground (arith, t.opened a i);
        others = λ b n. ground (arith, n);
      }))
]
