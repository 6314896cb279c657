-- ===== src/Io/Words.antt =====
-- Memory as 64-bit words, and the two 32-bit fields that share a word of the structs that
-- src/db/log_manager.cc lays over a buffer (little-endian: the first field is the lower half).
use graph_store.Prelude.{ℕ, ◌+◌, ◌*◌, ◌/◌, ◌%◌, ◌^◌, ◌≡◌, arith, ◌==◌, if◌then◌else◌}

-- The words of a block, by their index.
abbrev pub Words : Type 0
Words = ℕ → ℕ

unfoldable pub set : Words → ℕ → ℕ → Words
set b i v j = if i == j then v else b j

unfoldable pub low : ℕ → ℕ
low w = w % 2 ^ 32

unfoldable pub high : ℕ → ℕ
high w = w / 2 ^ 32 % 2 ^ 32

-- A write of a `uint32_t` into one half of a word.
unfoldable pub with_low : ℕ → ℕ → ℕ
with_low w v = w / 2 ^ 32 * 2 ^ 32 + v % 2 ^ 32

unfoldable pub with_high : ℕ → ℕ → ℕ
with_high w v = w % 2 ^ 32 + v % 2 ^ 32 * 2 ^ 32

pub low-with_low : (w v : ℕ) → low (with_low w v) ≡ v % 2 ^ 32
unfolding low with_low
low-with_low w v = omega arith

pub high-with_low : (w v : ℕ) → high (with_low w v) ≡ high w
unfolding high with_low
high-with_low w v = omega arith

pub low-with_high : (w v : ℕ) → low (with_high w v) ≡ low w
unfolding low with_high
low-with_high w v = omega arith

pub high-with_high : (w v : ℕ) → high (with_high w v) ≡ v % 2 ^ 32
unfolding high with_high
high-with_high w v = omega arith
