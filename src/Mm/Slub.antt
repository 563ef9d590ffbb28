-- ===== src/Mm/Slub.antt =====
-- mm/p3_slub: what the modules there take from the kernel's slab caches. A cache is seen by the
-- account of its objects: which of them are live, and how many frees were of something else.
pub mod Mcache
pub mod Mempool
pub mod Dcache
pub mod SafeAlloc
mod Examples
use linux_kernel_prog.Prelude.{
  ℕ, zero, suc, Bool, true, false, ◌&&◌, Option, none, some, List, [], ◌∷◌, count, erase, ltb,
  if◌then◌else◌,
}

pub record Slab : Type 0 where
  pub exists : Bool
  pub live : List ℕ
  pub bad_frees : ℕ

abbrev pub new_slab : Slab
new_slab = record { exists = true; live = []; bad_frees = 0 }

abbrev pub no_slab : Slab
no_slab = record { exists = false; live = []; bad_frees = 0 }

-- The address is the allocator's choice, and `none` its failure.
abbrev pub kmem_cache_alloc : Option ℕ → Slab → Slab
kmem_cache_alloc none s = s
kmem_cache_alloc (some a) s = record s { live = a ∷ s.live }

-- NULL and an object that is not live must not be freed.
unfoldable pub kmem_cache_free : Option ℕ → Slab → Slab
kmem_cache_free none s = record s { bad_frees = suc s.bad_frees }
kmem_cache_free (some a) s =
    if s.exists && ltb 0 (count a s.live)
    then record s { live = erase a s.live }
    else record s { bad_frees = suc s.bad_frees }

abbrev pub kmem_cache_destroy : Slab → Slab
kmem_cache_destroy s = record s { exists = false }
