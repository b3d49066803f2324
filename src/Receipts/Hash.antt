-- ===== src/Receipts/Hash.antt =====
-- `is_similar` of app/services/image_hasher.py on 64-bit patterns.
use Prim.Native.Nat.{bit_xor, ◌^◌, ◌/◌, ◌%◌}
use testify.Common.{ℕ, zero, suc, ◌+◌, Bool, leb}

-- `int.bit_count()` of the low `width` bits.
unfoldable pub bit_count : ℕ → ℕ → ℕ
bit_count zero n = 0
bit_count (suc width) n = n % 2 + bit_count width (n / 2)

-- `((a ^ b) & mask).bit_count() <= threshold`; the mask keeps the low 64 bits.
unfoldable pub is_similar : ℕ → ℕ → ℕ → Bool
unfolding bit_count
is_similar a b threshold = leb (bit_count 64 (bit_xor a b % 2 ^ 64)) threshold
