-- ===== src/Io/Device.antt =====
-- src/io/buffer_manager.cc and src/io/buffer.cc: blocks of a device that are read into buffers and
-- written back. A transfer that the operating system refuses or cuts short makes the process exit
-- (`check_errno`, `invariant`) and is not modelled: the transfers here are those that succeed.
use graph_store.Prelude.{ℕ, Bool, ◌==◌, ltb, if◌then◌else◌}
use graph_store.Util.Status.{StatusCode, StatusWith, with_result, without_result}
use graph_store.Io.Words.{Words}

-- `_deviceSize`, in blocks, and the contents of the blocks
pub record Device : Type 0 where
  pub size : ℕ
  pub block : ℕ → Words

pub record Buffer : Type 0 where
  pub number : ℕ
  pub words : Words

-- `Buffer(size, blockNum)`: fresh anonymous memory, which is zero
abbrev zeroed_words : Words
zeroed_words i = 0

unfoldable pub get : Device → ℕ → Bool → StatusWith Buffer
get dev block_num zeroed =
    if ltb block_num dev.size
    then with_result (record {
      number = block_num;
      words = if zeroed then zeroed_words else dev.block block_num;
    })
    else without_result StatusCode.no_space

unfoldable pub write : Device → Buffer → Device
write dev buffer = record dev {
  block = λ n. if buffer.number == n then buffer.words else dev.block n;
}
