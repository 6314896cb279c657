-- ===== src/Db/Log/Checksum.antt =====
-- `calculate_checksum` and `check_checksum` of src/db/log_manager.cc.
use Prim.Native.Nat.{bit_xor}
use graph_store.Prelude.{ℕ, zero, suc, ◌≤◌, ◌≡◌, refl, Bool, true, arith, ◌==◌, ==_refl}
use graph_store.Io.Words.{Words, set}

-- The loop from the word at `ptr`, over the words that are left.
unfoldable pub checksum_from : Words → (ptr left checksum : ℕ) → ℕ
checksum_from b ptr zero checksum = checksum
checksum_from b ptr (suc left) checksum = checksum_from b (suc ptr) left (bit_xor checksum (b ptr))

-- over the words from `start` up to `end`
unfoldable pub calculate_checksum : Words → (start words : ℕ) → ℕ
calculate_checksum b start words = checksum_from b start words 0

unfoldable pub check_checksum : ℕ → Words → (start words : ℕ) → Bool
check_checksum checksum b start words = checksum == calculate_checksum b start words

checksum_from-cong :
    (b c : Words) (ptr left checksum : ℕ)
    → ((i : ℕ) → ptr ≤ i → b i ≡ c i)
    → checksum_from b ptr left checksum ≡ checksum_from c ptr left checksum
unfolding checksum_from
checksum_from-cong b c ptr zero checksum h = refl
checksum_from-cong b c ptr (suc left) checksum h =
    rw (h ptr (omega arith))
      (checksum_from-cong b c (suc ptr) left (bit_xor checksum (c ptr)) (λ i le. h i (omega arith)))

-- The checksum of a block that stores it in its first word, before the words that it is over.
pub checksum-seal :
    (b : Words) (words : ℕ)
    → check_checksum
        (set b 0 (calculate_checksum b 1 words) 0)
        (set b 0 (calculate_checksum b 1 words))
        1
        words
      ≡ true
unfolding check_checksum calculate_checksum
checksum-seal b words =
    let sum = checksum_from b 1 words 0 in
    let same = checksum_from-cong (set b 0 sum) b 1 words 0 (λ i le. unfold set in ground arith) in
    unfold set in rw same (==_refl sum)
