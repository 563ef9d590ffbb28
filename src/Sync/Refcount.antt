-- ===== src/Sync/Refcount.antt =====
-- sync/part5/refcount_example.c: one resource, shared by worker threads through a reference count.
-- A thread is a program counter; the threads take turns at the accesses to shared memory. What a
-- spin lock protects is one step.
pub mod Threads
pub mod Safety
pub mod Sample
mod Examples
use linux_kernel_prog.Prelude.{
  ℕ, ◌+◌, ◌-◌, ◌%◌, ◌^◌, ◌≤◌, ◌<◌, ◌≡◌, Bool, true, false, Option, none, some, List, take, ◌==◌,
  if◌then◌else◌,
}

-- `refcount_t` of the kernel, up to the number where it saturates.
pub record RefcountApi : Type 0 where
  pub limit : ℕ
  pub inc_not_zero : ℕ → Bool × ℕ
  pub dec_and_test : ℕ → Bool × ℕ
  pub inc_zero : inc_not_zero 0 ≡ (false, 0)
  pub inc_pos : (n : ℕ) → 0 < n → n < limit → inc_not_zero n ≡ (true, n + 1)
  pub dec_pos : (n : ℕ) → 0 < n → n ≤ limit → dec_and_test n ≡ (n == 1, n - 1)

-- `struct resource_object`, whether it is allocated, and whether `shared_resource` points to it.
pub record Memory : Type 0 where
  pub refcount : ℕ
  pub resource_id : ℕ  -- int, as its 32-bit pattern
  pub description : List ℕ
  pub active : Bool
  pub live : Bool
  pub shared : Bool

-- `kfree`, once more or once for all.
unfoldable pub free_resource : Memory → Memory
free_resource m = record m { live = false }

-- `strncpy` of 63 characters, then the NUL; `shared_resource` is set by the caller.
unfoldable pub create_resource : (allocated : Bool) (id : ℕ) (desc : List ℕ) → Option Memory
create_resource false id desc = none
create_resource true id desc = some (record {
  refcount = 1;
  resource_id = id;
  description = take 63 desc;
  active = true;
  live = true;
  shared = false;
})

module _ (api : RefcountApi) where
  open api use {inc_not_zero, dec_and_test}

  -- Under `resource_lock`. The result says whether the caller holds the resource.
  unfoldable pub get_resource : Memory → Bool × Memory
  get_resource m =
      if m.shared
      then (let r = inc_not_zero m.refcount in (r.0, record m { refcount = r.1 }))
      else (false, m)

  -- The decrement of `put_resource`. The result says whether `free_resource` follows.
  unfoldable pub drop_reference : Memory → Bool × Memory
  drop_reference m = let r = dec_and_test m.refcount in (r.0, record m { refcount = r.1 })

  unfoldable pub put_resource : Memory → Memory
  unfolding drop_reference free_resource
  put_resource m = let r = drop_reference m in if r.0 then free_resource r.1 else r.1

  -- `refcount_example_exit` behind the waits for the threads, under `resource_lock`.
  unfoldable pub unload : Memory → Memory
  unfolding put_resource
  unload m =
      if m.shared then record (put_resource (record m { active = false })) { shared = false } else m
