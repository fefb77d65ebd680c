-- ===== src/Graph/Crc.antt =====
-- `crc32.ChecksumIEEE` of the Go library, bit by bit: the lowest bit of a word comes first.
use ref_falcon.Prelude.{
  ℕ, zero, suc, ◌+◌, ◌-◌, ◌*◌, ◌/◌, ◌%◌, ◌^◌, ◌≡◌, refl, Bool, false, not, List, [], ◌∷◌, ◌++◌,
  if◌then◌else◌, ◌==◌,
}

abbrev bits : ℕ → ℕ → List Bool
bits zero n = []
bits (suc k) n = (n % 2 == 1) ∷ bits k (n / 2)

abbrev number : List Bool → ℕ
number [] = 0
number (b ∷ bs) = (if b then 1 else 0) + 2 * number bs

abbrev xor : List Bool → List Bool → List Bool
xor [] ys = []
xor (x ∷ xs) [] = x ∷ xs
xor (x ∷ xs) (y ∷ ys) = (if x then not y else y) ∷ xor xs ys

-- The polynomial 0xEDB88320.
abbrev polynomial : List Bool
polynomial = bits 32 3988292384

-- One round: a shift to the right by one, and the polynomial if the bit that fell out is set.
abbrev shift : List Bool → List Bool
shift [] = []
shift (b ∷ bs) = if b then xor (bs ++ false ∷ []) polynomial else bs ++ false ∷ []

abbrev shifts : ℕ → List Bool → List Bool
shifts zero crc = crc
shifts (suc k) crc = shifts k (shift crc)

abbrev rounds : List ℕ → List Bool → List Bool
rounds [] crc = crc
rounds (byte ∷ data_) crc = rounds data_ (shifts 8 (xor crc (bits 8 byte)))

unfoldable pub checksum_ieee : List ℕ → ℕ
checksum_ieee data_ = number (xor (rounds data_ (bits 32 (2 ^ 32 - 1))) (bits 32 (2 ^ 32 - 1)))

check_123456789 : checksum_ieee (49 ∷ 50 ∷ 51 ∷ 52 ∷ 53 ∷ 54 ∷ 55 ∷ 56 ∷ 57 ∷ []) ≡ 3421780262
unfolding checksum_ieee
check_123456789 = refl
