-- ===== src/Tests/Inodes.antt =====
-- filesys/inode.c on a device of sixteen sectors.
use implso.Prelude.{
  ℕ, zero, suc, ◌+◌, ◌/◌, ◌≡◌, ◌≢◌, ◌⊎◌, inl, inr, refl, sym, ap, ◌∙◌, true, false, some, [], ◌∷◌,
  arith,
}
use implso.Prelude.Run.{ok, Returns}
use implso.Devices.Block.{zeros}
use implso.Filesys.FreeMap.{MapFile}
use implso.Kernel.Bitmap.Single.{bit}
use implso.Filesys.Inode.{State, inode_magic, byte_to_sector}
use implso.Filesys.Inode.Access.{read_at, write_at}
use implso.Filesys.Inode.Read.{HasRead, read_at_lem}
use implso.Filesys.Inode.Write.{Wrote, ReadsBack, write_at_lem, write_at-read_at}
use implso.Filesys.Opened
use implso.Filesys.Opened.{Fs}
use implso.Filesys.Opened.Counts.{IsOpenTable, OpenResult, Closes, open_inode_lem, close_inode_lem}
use implso.Filesys.Inode.Locate.{byte_to_sector_lem}
use implso.Filesys.Inode.Slots.{
  Slot, data_sector, indirect_block, doubly_block, inner_block, live, place, IsLaidOut,
}
use implso.Tests.Bitmaps.{good_disk}

abbrev pub disk : MapFile
disk = good_disk

abbrev empty_file : State
empty_file = record {
  inode = record {
    length = 0;
    magic = inode_magic;
    direct = λ _. 0;
    indirect = 0;
    doubly_indirect = 0;
    is_dir = 0;
  };
  free = record { map = record { bit_cnt = 16; bits = 0b111 ∷ [] }; file = some (0 ∷ []) };
  dev = record { size = 16; foreign = false; sectors = λ _. zeros };
}

-- A file of two sectors.
abbrev two_sectors : State
two_sectors = record empty_file {
  inode = record empty_file.inode { length = 600; direct = λ i. 3 + i };
  free = record { map = record { bit_cnt = 16; bits = 0b11111 ∷ [] }; file = some (0 ∷ []) };
}

two_sectors-live : (s : Slot) → live 2 s ≡ true → (s ≡ data_sector 0) ⊎ (s ≡ data_sector 1)
two_sectors-live (data_sector zero) h = inl refl
two_sectors-live (data_sector (suc zero)) h = inr refl
two_sectors-live (data_sector (suc (suc i))) h = ground arith
two_sectors-live indirect_block h = cc
two_sectors-live doubly_block h = cc
two_sectors-live (inner_block k) h = ground arith

abbrev sector_of : Slot → ℕ
sector_of = place two_sectors.inode two_sectors.dev

apart : (n : ℕ) → n ≢ suc n
apart n e = omega (arith, e)

two_sectors-IsLaidOut : IsLaidOut 2 two_sectors
unfolding bit
two_sectors-IsLaidOut = record {
  within = λ s h. elim (two_sectors-live s h) [
    | inl e ↦ rw e (omega arith)
    | inr e ↦ rw e (omega arith)
  ];
  marked = λ s h. elim (two_sectors-live s h) [ inl e ↦ rw e refl | inr e ↦ rw e refl ];
  distinct = λ s t h k e. elim (two_sectors-live s h) [
    | inl a ↦ elim (two_sectors-live t k) [
      | inl b ↦ a ∙ sym b
      | inr b ↦ absurd (apart 3 (sym (ap sector_of a) ∙ (e ∙ ap sector_of b)))
    ]
    | inr a ↦ elim (two_sectors-live t k) [
      | inl b ↦ absurd (apart 3 (sym (ap sector_of b) ∙ (sym e ∙ ap sector_of a)))
      | inr b ↦ a ∙ sym b
    ]
  ];
}

byte_to_sector_lem_example :
    byte_to_sector two_sectors.dev two_sectors.inode 599
    ≡ ok (place two_sectors.inode two_sectors.dev (data_sector (599 / 512)))
byte_to_sector_lem_example =
    byte_to_sector_lem two_sectors two_sectors-IsLaidOut (omega arith) 599 (omega arith)

abbrev letters : ℕ → ℕ
letters i = 97 + i

read_at_lem_example :
    Returns
      (HasRead two_sectors two_sectors-IsLaidOut (omega arith) 0 300 400 letters)
      (read_at true two_sectors.dev two_sectors.inode letters 300 400)
read_at_lem_example = read_at_lem two_sectors two_sectors-IsLaidOut (omega arith) letters 300 400

write_at_lem_example :
    Returns
      (Wrote disk 2 two_sectors letters 100 450 two_sectors-IsLaidOut
        (omega arith)
        refl
        (omega arith))
      (write_at true disk 2 0 letters 100 450 two_sectors)
write_at_lem_example =
    write_at_lem disk 2 two_sectors letters 100 450 two_sectors-IsLaidOut (omega arith) refl
      (omega arith)

write_at-read_at_example :
    Returns
      (ReadsBack disk 2 two_sectors letters 100 450 two_sectors-IsLaidOut
        (omega arith)
        refl
        (omega arith))
      (write_at true disk 2 0 letters 100 450 two_sectors)
write_at-read_at_example =
    write_at-read_at disk 2 two_sectors letters 100 450 two_sectors-IsLaidOut (omega arith) refl
      (omega arith)

-- An inode that has two openers.
abbrev pub opened_twice : Fs
opened_twice = record {
  inodes = λ a. record {
    sector = 5;
    open_cnt = 2;
    removed = false;
    deny_write_cnt = 1;
    contents = two_sectors.inode;
  };
  open_inodes = 40 ∷ [];
  free = two_sectors.free;
  dev = two_sectors.dev;
  memory = some 80 ∷ [];
}

opened_twice-IsOpenTable : IsOpenTable opened_twice
opened_twice-IsOpenTable = record {
  opened = λ a h. omega arith;
  denied = λ a h. omega arith;
  one_each = λ a b h k e. ground (arith, h, k);
}

open_inode_lem_example : Returns (OpenResult 7 opened_twice) (Opened.open_inode 7 opened_twice)
unfolding Opened.next_block
open_inode_lem_example =
    open_inode_lem 7 opened_twice opened_twice-IsOpenTable (λ a e. ground (arith, e)) (omega arith)

close_inode_lem_example : Returns (Closes 40 opened_twice) (Opened.close_inode disk 40 opened_twice)
close_inode_lem_example =
    close_inode_lem disk 40 opened_twice opened_twice-IsOpenTable refl refl (omega arith)
