-- ===== src/Sync/Kref.antt =====
-- sync/part5/kref_example.c: one object, shared by three worker threads through a kref. The threads,
-- the load and the unload take turns at the accesses to shared memory.
pub mod Workers
pub mod Weights
pub mod Kept
mod Examples
use linux_kernel_prog.Prelude.{
  ℕ, ◌+◌, ◌-◌, ◌≤◌, ◌<◌, ◌≡◌, Bool, true, false, Option, none, some, List, take, ◌==◌,
  if◌then◌else◌,
}

-- The counter of a `struct kref`, up to the number where it saturates. `dec_and_test` says whether
-- `kref_put` goes on to the release function.
pub record KrefApi : Type 0 where
  pub limit : ℕ
  pub kref_get : ℕ → ℕ
  pub dec_and_test : ℕ → Bool × ℕ
  pub get_pos : (n : ℕ) → 0 < n → n < limit → kref_get n ≡ n + 1
  pub dec_pos : (n : ℕ) → 0 < n → n ≤ limit → dec_and_test n ≡ (n == 1, n - 1)

-- `struct my_object`, whether it is allocated, and whether `global_obj` points to it.
pub record MyObject : Type 0 where
  pub refcount : ℕ
  pub data_ : ℕ  -- int, as its 32-bit pattern
  pub name : List ℕ
  pub live : Bool
  pub global_obj : Bool

-- `strncpy` of 31 characters, then the NUL; `global_obj` is set by the caller.
unfoldable pub create_object : (allocated : Bool) (name : List ℕ) (data_ : ℕ) → Option MyObject
create_object false name data_ = none
create_object true name data_ =
    some
      (record { refcount = 1; data_ = data_; name = take 31 name; live = true; global_obj = false })

unfoldable pub my_object_release : MyObject → MyObject
my_object_release o = record o { live = false }

module _ (api : KrefApi) where
  unfoldable pub take_reference : MyObject → MyObject
  take_reference o = record o { refcount = KrefApi.kref_get api o.refcount }

  -- The decrement of `kref_put`. The result says whether the release follows.
  unfoldable pub put_reference : MyObject → Bool × MyObject
  put_reference o =
      let r = KrefApi.dec_and_test api o.refcount in (r.0, record o { refcount = r.1 })

  unfoldable pub kref_put : MyObject → MyObject
  unfolding put_reference my_object_release
  kref_put o = let r = put_reference o in if r.0 then my_object_release r.1 else r.1

  -- `kref_example_exit` behind the ends of the threads.
  unfoldable pub kref_example_exit : MyObject → MyObject
  unfolding kref_put
  kref_example_exit o = if o.global_obj then record (kref_put o) { global_obj = false } else o
