-- ===== src/Sync/Refcount/Sample.antt =====
-- A reference count that counts.
use linux_kernel_prog.Prelude.{
  ℕ, ◌+◌, ◌-◌, ◌^◌, ◌<◌, ◌≡◌, refl, Bool, true, false, arith, ◌==◌, if◌then◌else◌,
}
use linux_kernel_prog.Sync.Refcount.{RefcountApi}

abbrev pub inc : ℕ → Bool × ℕ
inc n = if n == 0 then (false, 0) else (true, n + 1)

pub inc-pos : (n : ℕ) → 0 < n → n < 2 ^ 31 → inc n ≡ (true, n + 1)
inc-pos n h k = ground arith

abbrev pub counter : RefcountApi
counter = record {
  limit = 2 ^ 31;
  inc_not_zero = inc;
  dec_and_test = λ n. (n == 1, n - 1);
  inc_zero = refl;
  inc_pos = inc-pos;
  dec_pos = λ n h k. refl;
}
