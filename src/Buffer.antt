-- ===== src/Buffer.antt =====
-- Node's Buffer, as far as the SDK uses it (sdk/src): a list of bytes. A copy is clipped at the
-- end of its target, a subarray at the end of its source, and a numeric read or write out of
-- range throws.
pub mod Cuts
pub mod Words
pub mod Fill
use offline_bearer_protocol.Errors.{Error, range_error}
use offline_bearer_protocol.Prelude.{
  ℕ, zero, suc, ◌+◌, ◌-◌, ◌*◌, ◌/◌, ◌%◌, ◌^◌, ◌<◌, List, [], ◌∷◌, ◌++◌, Bool, true, false, ◌&&◌,
  ltb, leb, ◌==◌, length, take, drop, replicate, Result, ok, err, guard, ◌>>◌,
}

abbrev pub Buffer : Type 0
Buffer = List ℕ

abbrev pub IsByte : ℕ → Type 0
IsByte b = b < 256

-- `Buffer.alloc(n)`
abbrev pub alloc : ℕ → Buffer
alloc n = replicate n 0

-- `b.subarray(first, last)`
abbrev pub subarray : Buffer → ℕ → ℕ → Buffer
subarray b first last = take (last - first) (drop first b)

-- `source.copy(target, at)`, as the target that it leaves
unfoldable pub copy : Buffer → Buffer → ℕ → Buffer
copy source target at =
    take at target ++ (take (length target - at) source ++ drop (at + length source) target)

-- `a.equals(b)`
unfoldable pub equals : Buffer → Buffer → Bool
equals [] [] = true
equals [] (_ ∷ _) = false
equals (_ ∷ _) [] = false
equals (a ∷ xs) (b ∷ ys) = (a == b) && equals xs ys

-- The `w` bytes of a number, the lowest first, and the number that bytes stand for.
unfoldable pub le_bytes : ℕ → ℕ → Buffer
le_bytes zero v = []
le_bytes (suc w) v = v % 256 ∷ le_bytes w (v / 256)

unfoldable pub of_le : Buffer → ℕ
of_le [] = 0
of_le (b ∷ bs) = b + 256 * of_le bs

-- `buf.writeUInt8`, `writeUInt16LE`, `writeUInt32LE` and `writeBigUInt64LE` for the widths 1, 2,
-- 4 and 8
unfoldable pub write_uint : ℕ → ℕ → ℕ → Buffer → Result Error Buffer
write_uint w v at buf = do
  guard (ltb v (256 ^ w)) range_error
  guard (leb (at + w) (length buf)) range_error
  ok (copy (le_bytes w v) buf at)

-- `buf.readUInt8` and the others
unfoldable pub read_uint : ℕ → ℕ → Buffer → Result Error ℕ
read_uint w at buf = do
  guard (leb (at + w) (length buf)) range_error
  ok (of_le (take w (drop at buf)))
