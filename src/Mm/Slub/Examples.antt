-- ===== src/Mm/Slub/Examples.antt =====
-- The theorems on the slab modules at concrete addresses.
use linux_kernel_prog.Prelude.{
  ◌≡◌, ◌≢◌, refl, inl, inr, none, some, [], ◌∷◌, arith, true, false, codes,
}
use linux_kernel_prog.Kernel.{ok}
use linux_kernel_prog.Mm.Slub.Mcache.{mcache_init, mcache_exit, mcache_exit-clean, mcache_exit-bad}
use linux_kernel_prog.Mm.Slub.Mempool.{
  Mempool, mempool_example_init, mempool_example_exit, Apart, mempool_example_exit-clean,
}
use linux_kernel_prog.Mm.Slub.Dcache.{
  dcache_init, dcache_exit, dcache_exit-clean, dcache_third, device, device_constructor,
}
use linux_kernel_prog.Mm.Slub.SafeAlloc.{
  Devices, data_leak, safe, create_cache, net_device_constructor, net_device_alloc, net_device_free,
  fill_at, safe_alloc_init,
}
use linux_kernel_prog.Mm.Slub.SafeAlloc.Leak.{
  Reach, start, later, alloc, fill, free, IsSafe, Reach-IsSafe, net_device_free-magic,
  safe_alloc_init-clean,
}

mcache_exit-clean_example :
    ((mcache_init true (some 1) (some 2) (some 3)).0 ≡ ok 0)
    × ((mcache_exit (mcache_init true (some 1) (some 2) (some 3)).1).live ≡ [])
    × ((mcache_exit (mcache_init true (some 1) (some 2) (some 3)).1).bad_frees ≡ 0)
mcache_exit-clean_example =
    mcache_exit-clean 1 2 3 (λ e. absurd (omega arith)) (λ e. absurd (omega arith))
      (λ e. absurd (omega arith))

mcache_exit-bad_example :
    ((mcache_init true (some 1) none none).0 ≡ ok 0)
    × ((mcache_exit (mcache_init true (some 1) none none).1).bad_frees ≡ 3)
mcache_exit-bad_example = mcache_exit-bad (some 1) none none (inr (inl refl))

-- The second allocation fails.
abbrev pool : Mempool
pool = mempool_example_exit (mempool_example_init true true (some 1) none (some 3)).1

apart : Apart (some 1) (some 3)
apart a e f = ground arith

mempool_example_exit-clean_example :
    (pool.object_pool.live ≡ [])
    × (pool.object_pool.bad_frees ≡ 0)
    × (pool.object_pool.exists ≡ false)
mempool_example_exit-clean_example =
    mempool_example_exit-clean (some 1) none (some 3) (λ a e f. cc) apart (λ a e f. cc)

-- A device was allocated, filled and freed, and its memory allocated again.
abbrev one : Devices
one = net_device_alloc (some 7) create_cache

abbrev filled : Devices
filled = fill_at 7 501 (codes "a name of more than twelve letters") 1 one

abbrev again : Devices
again = net_device_alloc (some 7) (net_device_free (some 7) filled)

again-Reach : Reach again
unfolding create_cache net_device_alloc net_device_free fill_at
again-Reach =
    later
      (later
        (later (later start (alloc 7 refl))
          (fill 7 501 (codes "a name of more than twelve letters") 1 (λ e. absurd (omega arith))))
        (free 7 (λ e. absurd (omega arith))))
      (alloc 7 refl)

Reach-IsSafe_example : IsSafe again
Reach-IsSafe_example = Reach-IsSafe again-Reach

net_device_free-magic_example : (again.mem 7).magic ≢ net_device_constructor.magic
net_device_free-magic_example = net_device_free-magic filled 7

safe_alloc_init-clean_example :
    ((safe_alloc_init true (some 7) (some 7)).0 ≡ ok 0)
    × ((safe_alloc_init true (some 7) (some 7)).1 ≢ data_leak)
    × ((safe_alloc_init true (some 7) (some 7)).2.net_device_cache.live ≡ [])
    × ((safe_alloc_init true (some 7) (some 7)).2.net_device_cache.bad_frees ≡ 0)
    × ((safe_alloc_init true (some 7) (some 7)).2.net_device_cache.exists ≡ false)
safe_alloc_init-clean_example = safe_alloc_init-clean (some 7) (some 7)

same_object : (safe_alloc_init true (some 7) (some 7)).1 ≡ safe
unfolding safe_alloc_init
same_object = refl

dcache_exit-clean_example :
    ((dcache_init true (some 1) none (some 3)).0 ≡ ok 0)
    × ((dcache_exit (dcache_init true (some 1) none (some 3)).2).live ≡ [])
    × ((dcache_exit (dcache_init true (some 1) none (some 3)).2).bad_frees ≡ 0)
    × ((dcache_exit (dcache_init true (some 1) none (some 3)).2).exists ≡ false)
dcache_exit-clean_example =
    dcache_exit-clean (some 1) none (some 3) (λ a e f. cc) apart (λ a e f. cc)

third_is_blank :
    (dcache_third 1 2 (some 3) (record { exists = true; live = []; bad_frees = 0 })).0
    ≡ device 3 device_constructor ∷ []
unfolding dcache_third
third_is_blank = refl
