-- ===== src/Db/Log/Layout.antt =====
-- The constants behind the structs that src/db/log_manager.cc lays over a block.
use graph_store.Prelude.{ℕ, ◌-◌, ◌*◌, ◌/◌}

abbrev pub block_magic : ℕ
block_magic = 1234567

-- Platform::BUFFER_BLOCK_SIZE of src/platform_params.h
abbrev pub buffer_block_size : ℕ
buffer_block_size = 4096

-- sizeof(uint64_t) is 8, and sizeof(LogManager::Entry) is 24
abbrev pub log_block_entry_count : ℕ
log_block_entry_count = (buffer_block_size - 4 * 8) / 24
