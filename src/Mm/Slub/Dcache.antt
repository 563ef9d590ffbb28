-- ===== src/Mm/Slub/Dcache.antt =====
-- mm/p3_slub/dcache.c: three devices of a cache with a constructor.
use linux_kernel_prog.Prelude.{
  ℕ, ◌≡◌, refl, ◌==◌, Bool, true, false, Option, none, some, List, [], ◌∷◌, arith, codes, replicate,
  if◌then◌else◌,
}
use linux_kernel_prog.Kernel.{Result, ok, err, Errno}
use linux_kernel_prog.Mm.Slub.{
  Slab, new_slab, no_slab, kmem_cache_alloc, kmem_cache_free, kmem_cache_destroy,
}
use linux_kernel_prog.Mm.Slub.Mempool.{Apart}

pub record DeviceInfo : Type 0 where
  pub magic : ℕ
  pub device_id : ℕ
  pub status : ℕ
  pub name : List ℕ

abbrev pub device_magic : ℕ
device_magic = 0xDECE1234

unfoldable pub device_constructor : DeviceInfo
device_constructor = record {
  magic = device_magic;
  device_id = 0;
  status = 0;
  name = replicate 16 0;
}

-- `strcpy` into the name: the characters, a NUL, and what was there behind it.
unfoldable pub copy_name : (src dst : List ℕ) → List ℕ
copy_name src [] = []
copy_name [] (d ∷ dst) = 0 ∷ dst
copy_name (c ∷ src) (d ∷ dst) = c ∷ copy_name src dst

-- The use of a device.
unfoldable pub set_device : (id status : ℕ) (name : List ℕ) → DeviceInfo → DeviceInfo
unfolding copy_name
set_device id status name dev = record dev {
  device_id = id;
  status = status;
  name = copy_name name dev.name;
}

-- What `print_device_info` prints, and "Init OK".
pub data Printed : Type 0 where
  init_ok : Printed
  device : (label : ℕ) → DeviceInfo → Printed

-- The third allocation and the frees. All objects are as the constructor left them.
unfoldable pub dcache_third : (a b : ℕ) → Option ℕ → Slab → List Printed × Slab
unfolding kmem_cache_free device_constructor
dcache_third a b none s = ([], kmem_cache_free (some b) (kmem_cache_free (some a) s))
dcache_third a b (some c) s = (
  device 3 device_constructor ∷ [],
  kmem_cache_free (some b)
      (kmem_cache_free (some a) (kmem_cache_free (some c) (kmem_cache_alloc (some c) s))),
)

unfoldable pub dcache_second : (a : ℕ) → (second third : Option ℕ) → Slab → List Printed × Slab
unfolding dcache_third set_device
dcache_second a none third s = ([], kmem_cache_free (some a) s)
dcache_second a (some b) third s =
    let r = dcache_third a b third (kmem_cache_alloc (some b) s) in
    (device 2 (set_device 102 0xBADC (codes "wlan0") device_constructor) ∷ r.0, r.1)

-- The result, what is printed, and the cache.
unfoldable pub dcache_init :
    (created : Bool) (first second third : Option ℕ) → Result ℕ × List Printed × Slab
unfolding dcache_second
dcache_init false first second third = (err Errno.enomem, [], no_slab)
dcache_init true none second third = (ok 0, [], new_slab)
dcache_init true (some a) second third =
    let r = dcache_second a second third (kmem_cache_alloc (some a) new_slab) in
    let dev = set_device 101 0xACE5 (codes "eth0") device_constructor in
    (
      ok 0,
      (if device_constructor.magic == device_magic
          then init_ok ∷ device 1 dev ∷ r.0
          else device 1 dev ∷ r.0),
      r.1,
    )

unfoldable pub dcache_exit : Slab → Slab
dcache_exit s = kmem_cache_destroy s

-- Whichever of the allocations succeed, and at any different addresses, the load leaves no device
-- allocated and frees nothing that is not, so that the unload destroys an empty cache.
pub dcache_exit-clean :
    (first second third : Option ℕ)
    → Apart first second
    → Apart first third
    → Apart second third
    → let (ret, printed, s) = dcache_init true first second third in
      (ret ≡ ok 0)
      × ((dcache_exit s).live ≡ [])
      × ((dcache_exit s).bad_frees ≡ 0)
      × ((dcache_exit s).exists ≡ false)
unfolding dcache_init dcache_exit kmem_cache_free
dcache_exit-clean none second third ab ac bc = (refl, refl, refl, refl)
dcache_exit-clean (some a) none third ab ac bc = (refl, ground arith, ground arith, ground arith)
dcache_exit-clean (some a) (some b) none ab ac bc =
    (refl, ground (arith, ab a refl), ground (arith, ab a refl), ground (arith, ab a refl))
dcache_exit-clean (some a) (some b) (some c) ab ac bc = (
  refl,
  ground (arith, ab a refl, ac a refl, bc b refl),
  ground (arith, ab a refl, ac a refl, bc b refl),
  ground (arith, ab a refl, ac a refl, bc b refl),
)
