-- ===== src/Problem/Limits.antt =====
-- What a manifest that passes validateManifest promises.
use byte_battle.Prelude.{ℕ, ◌*◌, ◌≤◌, ◌≡◌, refl, ◌||◌, true, false, arith}
use byte_battle.Prelude.Int.{ℤ, pos, negsuc, is_at_most_zero, exceeds}
use byte_battle.Problem.{Text, Manifest}
use byte_battle.Problem.Output.{is_nil}
use byte_battle.Problem.Validator.{validate_manifest, limits_time_ms, limits_memory_kb}

in_range :
    (z : ℤ) (n : ℕ)
    → is_at_most_zero z || exceeds z n ≡ false
    → (k : ℕ) × (z ≡ pos k) × (1 ≤ k) × (k ≤ n)
in_range (pos k) n h = (k, refl, ground arith, ground arith)
in_range (negsuc k) n h = cc

validated :
    (trim_space : Text → Text) (m : Manifest)
    → validate_manifest trim_space m ≡ true
    → (is_nil (trim_space m.title) ≡ false)
      × (is_at_most_zero m.time_limit_ms || exceeds m.time_limit_ms 30000 ≡ false)
      × (is_at_most_zero m.memory_limit_mb || exceeds m.memory_limit_mb 1024 ≡ false)
unfolding validate_manifest
validated trim_space m h = ground arith

time_fits : (m : Manifest) (k : ℕ) → m.time_limit_ms ≡ pos k → k ≤ 30000 → limits_time_ms m ≡ k
unfolding limits_time_ms
time_fits m k e h = rw (e) (omega arith)

memory_fits :
    (m : Manifest) (k : ℕ) → m.memory_limit_mb ≡ pos k → k ≤ 1024 → limits_memory_kb m ≡ k * 1024
unfolding limits_memory_kb
memory_fits m k e h = rw (e) (omega arith)

-- When validateManifest accepts a manifest, its title has more than white space, its time limit is
-- 1 to 30000 ms and its memory limit 1 to 1024 MB, and the limits that an upload writes to the
-- database as int32 are those numbers: nothing wraps around.
pub validate_manifest-limits :
    (trim_space : Text → Text) (m : Manifest)
    → validate_manifest trim_space m ≡ true
    → (is_nil (trim_space m.title) ≡ false)
      × (t : ℕ) × (mb : ℕ) × (m.time_limit_ms ≡ pos t)
      × (1 ≤ t)
      × (t ≤ 30000)
      × (limits_time_ms m ≡ t)
      × (m.memory_limit_mb ≡ pos mb)
      × (1 ≤ mb)
      × (mb ≤ 1024)
      × (limits_memory_kb m ≡ mb * 1024)
validate_manifest-limits trim_space m h =
    let (title, time, memory) = validated trim_space m h in
    let (t, e, low, high) = in_range m.time_limit_ms 30000 time in
    let (mb, f, low', high') = in_range m.memory_limit_mb 1024 memory in
    (title, t, mb, e, low, high, time_fits m t e high, f, low', high', memory_fits m mb f high')
