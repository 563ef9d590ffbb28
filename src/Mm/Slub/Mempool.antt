-- ===== src/Mm/Slub/Mempool.antt =====
-- mm/p3_slub/mempool.c: three objects of a pool over a cache. The objects that the pool holds in
-- reserve are the kernel's affair: the account is of those handed out.
use linux_kernel_prog.Prelude.{ℕ, ◌≡◌, ◌≢◌, refl, Bool, true, false, Option, none, some, [], arith}
use linux_kernel_prog.Kernel.{Result, ok, err, Errno}
use linux_kernel_prog.Mm.Slub.{
  Slab, new_slab, no_slab, kmem_cache_alloc, kmem_cache_free, kmem_cache_destroy,
}

pub record Mempool : Type 0 where
  pub object_cache : Bool
  pub object_pool : Slab
  pub obj1 : Option ℕ
  pub obj2 : Option ℕ
  pub obj3 : Option ℕ

-- The three allocations are made whether or not the ones before them succeed.
unfoldable pub mempool_example_init :
    (cache pool : Bool) (first second third : Option ℕ) → Result ℕ × Mempool
mempool_example_init false pool first second third = (
  err Errno.enomem,
  record { object_cache = false; object_pool = no_slab; obj1 = none; obj2 = none; obj3 = none },
)
mempool_example_init true false first second third = (
  err Errno.enomem,
  record { object_cache = false; object_pool = no_slab; obj1 = none; obj2 = none; obj3 = none },
)
mempool_example_init true true first second third = (
  ok 0,
  record {
    object_cache = true;
    object_pool =
        kmem_cache_alloc third (kmem_cache_alloc second (kmem_cache_alloc first new_slab));
    obj1 = first;
    obj2 = second;
    obj3 = third;
  },
)

-- `if (obj) mempool_free(obj, object_pool);`
unfoldable pub free_object : Option ℕ → Slab → Slab
unfolding kmem_cache_free
free_object none s = s
free_object (some a) s = kmem_cache_free (some a) s

unfoldable pub mempool_example_exit : Mempool → Mempool
unfolding free_object
mempool_example_exit m = record m {
  object_cache = false;
  object_pool =
      kmem_cache_destroy
        (free_object m.obj3 (free_object m.obj2 (free_object m.obj1 m.object_pool)));
}

-- Two allocations do not give the same address.
abbrev pub Apart : Option ℕ → Option ℕ → Type 0
Apart p q = (a : ℕ) → p ≡ some a → q ≢ some a

-- Whichever of the three allocations succeed, and at any different addresses, an unload gives back
-- the objects that were allocated and frees nothing else.
pub mempool_example_exit-clean :
    (first second third : Option ℕ)
    → Apart first second
    → Apart first third
    → Apart second third
    → let m = mempool_example_exit (mempool_example_init true true first second third).1 in
      (m.object_pool.live ≡ []) × (m.object_pool.bad_frees ≡ 0) × (m.object_pool.exists ≡ false)
unfolding mempool_example_init mempool_example_exit free_object kmem_cache_free
mempool_example_exit-clean none none none ab ac bc = (refl, refl, refl)
mempool_example_exit-clean none none (some c) ab ac bc = ground arith
mempool_example_exit-clean none (some b) none ab ac bc = ground arith
mempool_example_exit-clean none (some b) (some c) ab ac bc = ground (arith, bc b refl)
mempool_example_exit-clean (some a) none none ab ac bc = ground arith
mempool_example_exit-clean (some a) none (some c) ab ac bc = ground (arith, ac a refl)
mempool_example_exit-clean (some a) (some b) none ab ac bc = ground (arith, ab a refl)
mempool_example_exit-clean (some a) (some b) (some c) ab ac bc =
    ground (arith, ab a refl, ac a refl, bc b refl)
