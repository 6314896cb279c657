-- ===== src/Db/Log/LogBlock.antt =====
-- `struct LogBlock` of src/db/log_manager.cc over the words of a block: checksum, `__magic` and
-- `generation` are words 0 to 2, `nEntries` is the lower half of word 3, the entries of three words
-- each start at word 4, and `__END` stands at word 511.
use graph_store.Prelude.{ℕ, ◌+◌, ◌*◌, ◌≡◌, ◌<◌, refl, Bool, true, arith}
use graph_store.Io.Words.{Words, set, low, with_low, low-with_low}
use graph_store.Db.Log.Layout.{block_magic}
use graph_store.Db.Log.Checksum.{calculate_checksum, check_checksum, checksum-seal}
use graph_store.Db.Log.Entry.{Entry, IsNamed, to_code, of_code, of_code-to_code, to_code-lt}

unfoldable pub n_entries : Words → ℕ
n_entries b = low (b 3)

unfoldable pub generation : Words → ℕ
generation b = b 2

-- `entries[k]`
unfoldable pub entry : Words → ℕ → Entry
entry b k = record {
  opcode = of_code (low (b (4 + 3 * k)));
  id_a = b (5 + 3 * k);
  id_b = b (6 + 3 * k);
}

-- `entries[k] = e`
unfoldable pub set_entry : Words → ℕ → Entry → Words
set_entry b k e =
    set (set (set b (4 + 3 * k) (with_low (b (4 + 3 * k)) (to_code e.opcode))) (5 + 3 * k) e.id_a)
      (6 + 3 * k) e.id_b

unfoldable pub set_n_entries : Words → ℕ → Words
set_n_entries b v = set b 3 (with_low (b 3) v)

-- `init(generation)`
unfoldable pub init : Words → ℕ → Words
init b gen = set_n_entries (set (set b 1 block_magic) 2 gen) 0

unfoldable pub valid : Words → Bool
valid b = check_checksum (b 0) b 1 510

unfoldable pub prewrite : Words → Words
prewrite b = set b 0 (calculate_checksum b 1 510)

-- `entries[nEntries++] = e`
unfoldable pub push : Words → Entry → Words
push b e = set_n_entries (set_entry b (n_entries b) e) (n_entries b + 1)

pub valid-prewrite : (b : Words) → valid (prewrite b) ≡ true
unfolding valid prewrite
valid-prewrite b = checksum-seal b 510

pub n_entries-init : (b : Words) (gen : ℕ) → n_entries (init b gen) ≡ 0
unfolding n_entries init set_n_entries set
n_entries-init b gen = low-with_low (b 3) 0

pub n_entries-prewrite : (b : Words) → n_entries (prewrite b) ≡ n_entries b
unfolding n_entries prewrite set
n_entries-prewrite b = refl

pub entry-prewrite : (b : Words) (k : ℕ) → entry (prewrite b) k ≡ entry b k
unfolding entry prewrite set
entry-prewrite b k = ground arith

pub n_entries-push :
    (b : Words) (e : Entry) → n_entries b < 169 → n_entries (push b e) ≡ n_entries b + 1
unfolding n_entries push set_n_entries set
n_entries-push b e h = omega (arith, low-with_low (set_entry b (low (b 3)) e 3) (low (b 3) + 1))

-- The new entry stands behind the others, which stay.
pub entry-push : (b : Words) (e : Entry) → IsNamed e.opcode → entry (push b e) (n_entries b) ≡ e
unfolding entry push set_entry set_n_entries set
entry-push b e h = ground (
  arith,
  low-with_low (b (4 + 3 * n_entries b)) (to_code e.opcode),
  of_code-to_code e.opcode h,
  to_code-lt e.opcode h,
)

pub entry-push_lt :
    (b : Words) (e : Entry) (k : ℕ) → k < n_entries b → entry (push b e) k ≡ entry b k
unfolding entry push set_entry set_n_entries set
entry-push_lt b e k h = ground arith
