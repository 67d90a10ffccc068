-- ===== src/Kernel/Hash/Bytes.antt =====
-- lib/kernel/hash.c: the sample hash functions, of Fowler, Noll and Vo.
use Prim.Native.Nat.{bit_xor}
use implso.Prelude.Run.{Run, ok, panic}
use implso.Prelude.{
  true, false, ◌<◌, ◌≡◌, ◌≢◌, length, arith, ℕ, zero, suc, ◌+◌, ◌*◌, ◌%◌, ◌^◌, List, [], ◌∷◌, ◌==◌,
}
use implso.Devices.Block.{byte_of}

abbrev pub fnv_32_prime : ℕ
fnv_32_prime = 16777619

abbrev pub fnv_32_basis : ℕ
fnv_32_basis = 2166136261

-- One round, for the byte `b`.
abbrev pub mix : (hash b : ℕ) → ℕ
mix hash b = bit_xor (hash * fnv_32_prime % 2 ^ 32) b

unfoldable pub bytes_loop : (hash : ℕ) → List ℕ → ℕ
bytes_loop hash [] = hash
bytes_loop hash (b ∷ buf) = bytes_loop (mix hash b) buf

unfoldable pub hash_bytes : List ℕ → ℕ
hash_bytes buf = bytes_loop fnv_32_basis buf

-- The bytes of a string lie at `s`, `s + 1` and so on, and a byte 0 ends it. A unit of fuel is a
-- round of the loop; without fuel it panics.
unfoldable pub string_loop : (fuel hash : ℕ) (byte : ℕ → ℕ) (s : ℕ) → Run ℕ
string_loop zero hash byte s = panic
string_loop (suc fuel) hash byte s = elim (byte s == 0) [
  | true ↦ ok hash
  | false ↦ string_loop fuel (mix hash (byte s)) byte (s + 1)
]

unfoldable pub hash_string : (fuel : ℕ) (byte : ℕ → ℕ) (s : ℕ) → Run ℕ
hash_string fuel byte s = string_loop fuel fnv_32_basis byte s

-- `i` is the word of the integer, which lies in memory lowest byte first.
unfoldable pub hash_int : ℕ → ℕ
hash_int i = hash_bytes (byte_of i 0 ∷ (byte_of i 1 ∷ (byte_of i 2 ∷ (byte_of i 3 ∷ []))))

-- The string at `s` is `chars`, with a byte 0 behind them.
pub data IsString (byte : ℕ → ℕ) : ℕ → List ℕ → Type 0 where
  ended : {s : ℕ} → byte s ≡ 0 → IsString byte s []
  char :
      {s c : ℕ} {chars : List ℕ}
      → byte s ≡ c
      → c ≢ 0
      → IsString byte (s + 1) chars
      → IsString byte s (c ∷ chars)

string_loop_lem :
    (fuel hash : ℕ) (byte : ℕ → ℕ) (s : ℕ) (chars : List ℕ)
    → IsString byte s chars
    → length chars < fuel
    → string_loop fuel hash byte s ≡ ok (bytes_loop hash chars)
unfolding string_loop bytes_loop
string_loop_lem zero hash byte s chars t h = elim h [ ]
string_loop_lem (suc fuel) hash byte s [] (ended e) h = rw (string_loop, e)
string_loop_lem (suc fuel) hash byte s (c ∷ chars) (char e ne t) h =
    let z : (c == 0) ≡ false = ground (arith, ne) in
    rw (string_loop, e, z, e) (string_loop_lem fuel (mix hash c) byte (s + 1) chars t (omega arith))

-- hash_string of a string of a given sequence of characters, with more fuel than there are
-- characters, gives the hash that hash_bytes gives for them.
pub hash_string-hash_bytes :
    (fuel : ℕ) (byte : ℕ → ℕ) (s : ℕ) (chars : List ℕ)
    → IsString byte s chars
    → length chars < fuel
    → hash_string fuel byte s ≡ ok (hash_bytes chars)
unfolding hash_string hash_bytes
hash_string-hash_bytes fuel byte s chars t h = string_loop_lem fuel fnv_32_basis byte s chars t h
