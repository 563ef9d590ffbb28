-- ===== src/Mm/Slub/Mcache.antt =====
-- mm/p3_slub/mcache.c: three blocks of a cache. `kmem_cache_create` and the allocations come as
-- arguments. What is written into the blocks is never read.
use linux_kernel_prog.Prelude.{
  ℕ, ◌≡◌, ◌≢◌, refl, ◌⊎◌, inl, inr, Bool, true, false, Option, none, some, [], arith,
}
use linux_kernel_prog.Kernel.{Result, ok, err, Errno}
use linux_kernel_prog.Mm.Slub.{
  Slab, new_slab, no_slab, kmem_cache_alloc, kmem_cache_free, kmem_cache_destroy,
}

-- The pointers are NULL when the module is loaded.
pub record Mcache : Type 0 where
  pub block1 : Option ℕ
  pub block2 : Option ℕ
  pub block3 : Option ℕ
  pub raw_cache : Slab

unfoldable pub mcache_init : (created : Bool) (first second third : Option ℕ) → Result ℕ × Mcache
unfolding kmem_cache_free
mcache_init false first second third =
    (err Errno.enomem, record { block1 = none; block2 = none; block3 = none; raw_cache = no_slab })
mcache_init true none second third =
    (ok 0, record { block1 = none; block2 = none; block3 = none; raw_cache = new_slab })
mcache_init true (some a) none third = (
  ok 0,
  record {
    block1 = some a;
    block2 = none;
    block3 = none;
    raw_cache = kmem_cache_free (some a) (kmem_cache_alloc (some a) new_slab);
  },
)
mcache_init true (some a) (some b) none = (
  ok 0,
  record {
    block1 = some a;
    block2 = some b;
    block3 = none;
    raw_cache =
        kmem_cache_free (some b) (
          kmem_cache_free (some a)
            (kmem_cache_alloc (some b) (kmem_cache_alloc (some a) new_slab)));
  },
)
mcache_init true (some a) (some b) (some c) = (
  ok 0,
  record {
    block1 = some a;
    block2 = some b;
    block3 = some c;
    raw_cache =
        kmem_cache_alloc (some c) (kmem_cache_alloc (some b) (kmem_cache_alloc (some a) new_slab));
  },
)

unfoldable pub mcache_exit : Mcache → Slab
unfolding kmem_cache_free
mcache_exit m =
    kmem_cache_destroy
      (kmem_cache_free m.block3 (kmem_cache_free m.block1 (kmem_cache_free m.block2 m.raw_cache)))

-- If the cache is created and the three allocations succeed, at different addresses, the load returns
-- 0 and the unload frees the three blocks, each once, and nothing else.
pub mcache_exit-clean :
    (a b c : ℕ)
    → a ≢ b
    → a ≢ c
    → b ≢ c
    → let (ret, m) = mcache_init true (some a) (some b) (some c) in
      (ret ≡ ok 0) × ((mcache_exit m).live ≡ []) × ((mcache_exit m).bad_frees ≡ 0)
unfolding mcache_init mcache_exit kmem_cache_free
mcache_exit-clean a b c ab ac bc = (refl, ground arith, ground arith)

-- If the cache is created and one of the three allocations fails, the load still returns 0, and the
-- unload then frees NULL, and each block that the load has freed once more.
pub mcache_exit-bad :
    (first second third : Option ℕ)
    → (first ≡ none) ⊎ (second ≡ none) ⊎ (third ≡ none)
    → let (ret, m) = mcache_init true first second third in
      (ret ≡ ok 0) × ((mcache_exit m).bad_frees ≡ 3)
unfolding mcache_init mcache_exit kmem_cache_free
mcache_exit-bad none second third h = (refl, refl)
mcache_exit-bad (some a) none third h = ground arith
mcache_exit-bad (some a) (some b) none h = ground arith
mcache_exit-bad (some a) (some b) (some c) (inl e) = cc
mcache_exit-bad (some a) (some b) (some c) (inr (inl e)) = cc
mcache_exit-bad (some a) (some b) (some c) (inr (inr e)) = cc
