-- ===== src/Zip/Crc.antt =====
-- The check sum is a 32-bit number.
use Prim.Native.Nat.{bit_xor, bit_and, differ, digits, bit_xor-bitwise, bit_and-bitwise, min}
use dgx_spark_llm_platform.Base.{
  ℕ, zero, suc, ◌+◌, ◌/◌, ◌%◌, ◌^◌, ◌≤◌, ◌<◌, [], ◌∷◌, ◌≡◌, arith, if◌then◌else◌, ◌==◌,
}
use native.Mathlib.Nat.{pow-suc}
use dgx_spark_llm_platform.Zip.{Bytes, crc_rounds, crc_entry, crc_from, crc32}

abbrev xor_digits : ℕ → ℕ → ℕ → ℕ
xor_digits n a b = digits (λ b. b) differ n a b

differ-lt : (a b : ℕ) → a < 2 → b < 2 → differ a b < 2
differ-lt zero b h k = k
differ-lt (suc zero) zero h k = h
differ-lt (suc zero) (suc zero) h k = omega arith
differ-lt (suc zero) (suc (suc b)) h k = absurd (omega arith)
differ-lt (suc (suc a)) b h k = absurd (omega arith)

-- Numbers of `k` binary digits give one of `k` digits; `m` stands for `2 ^ k`.
data IsPower : ℕ → Type 0 where
  one : IsPower 1
  double : {m : ℕ} → IsPower m → (n : ℕ) → n ≡ m + m → IsPower n

xor_digits-lt : {m : ℕ} → IsPower m → (n a b : ℕ) → a < m → b < m → xor_digits n a b < m
xor_digits-lt one n a b h k = xor_small n a b (omega arith) (omega arith)
  where
    xor_small : (n a b : ℕ) → a ≡ 0 → b ≡ 0 → xor_digits n a b < 1
    xor_small zero a b p q = omega arith
    xor_small (suc n) zero b p q = omega arith
    xor_small (suc n) (suc a) b p q = absurd (omega arith)
xor_digits-lt (double {m} w k e) zero a b h l = l
xor_digits-lt (double {m} w k e) (suc n) zero b h l = l
xor_digits-lt (double {m} w k e) (suc n) (suc a) b h l =
    let low = differ-lt (suc a % 2) (b % 2) (omega arith) (omega arith) in
    let high = xor_digits-lt w n (suc a / 2) (b / 2) (omega arith) (omega arith) in omega arith

pow-IsPower : (k : ℕ) → IsPower (2 ^ k)
pow-IsPower zero = one
pow-IsPower (suc k) = double (pow-IsPower k) (2 ^ suc k) (omega (arith, pow-suc 2 k))

bit_xor-lt : (a b : ℕ) → a < 2 ^ 32 → b < 2 ^ 32 → bit_xor a b < 2 ^ 32
bit_xor-lt a b h k = omega (arith, bit_xor-bitwise a b, xor_digits-lt (pow-IsPower 32) a a b h k)

crc_rounds-lt : (k c : ℕ) → c < 2 ^ 32 → crc_rounds k c < 2 ^ 32
unfolding crc_rounds
crc_rounds-lt zero c h = h
crc_rounds-lt (suc k) c h =
    let shifted = bit_xor-lt 0xedb88320 (c / 2) (omega arith) (omega arith) in
    crc_rounds-lt k (if bit_and c 1 == 1 then bit_xor 0xedb88320 (c / 2) else c / 2) (ground arith)

-- The masked index is below 256.
and_digits-le : (n a b : ℕ) → digits (λ b. zero) min n a b ≤ b
and_digits-le zero a b = omega arith
and_digits-le (suc n) zero b = omega arith
and_digits-le (suc n) (suc a) b = omega (arith, and_digits-le n (suc a / 2) (b / 2))

bit_and-le : (a b : ℕ) → bit_and a b ≤ b
bit_and-le a b = omega (arith, bit_and-bitwise a b, and_digits-le a a b)

crc_from-lt : (c : ℕ) (bytes : Bytes) → c < 2 ^ 32 → crc_from c bytes < 2 ^ 32
unfolding crc_from crc_entry
crc_from-lt c [] h = h
crc_from-lt c (d ∷ bytes) h =
    let index = bit_and (bit_xor c d) 0xff in
    let small : index < 2 ^ 32 = omega (arith, bit_and-le (bit_xor c d) 0xff) in
    let entry = crc_rounds-lt 8 index small in
    crc_from-lt (bit_xor (crc_rounds 8 index) (c / 2 ^ 8)) bytes
      (bit_xor-lt (crc_rounds 8 index) (c / 2 ^ 8) entry (omega arith))

pub crc32-lt : (bytes : Bytes) → crc32 bytes < 2 ^ 32
unfolding crc32
crc32-lt bytes =
    bit_xor-lt (crc_from 0xffffffff bytes) 0xffffffff (crc_from-lt 0xffffffff bytes (omega arith))
      (omega arith)
