-- ===== src/Scons/Job/Jobs.antt =====
-- `Jobs.__init__` of scons/scons-local-2.5.0/SCons/Job.py: which kind of job runs. Whether this
-- interpreter has threads is a parameter.
use graph_store.Prelude.{ℕ, Bool, ◌&&◌, ltb, if◌then◌else◌}

pub data Job : Type 0 where
  serial : Job
  parallel : (num : ℕ) → Job

unfoldable pub new_job : (threads : Bool) → (num : ℕ) → Job
new_job threads num = if ltb 1 num && threads then parallel num else serial

abbrev pub num_jobs : Job → ℕ
num_jobs serial = 1
num_jobs (parallel num) = num
