-- ===== src/Mm/Slub/SafeAlloc.antt =====
-- mm/p3_slub/safe_alloc.c: a cache of network devices with wrappers that clear a device before it
-- goes back to the cache. The memory of the cache is a function from addresses: the constructor has
-- run on every object when the cache is created, and an object that is freed keeps its contents.
pub mod Leak
use linux_kernel_prog.Prelude.{
  ℕ, zero, suc, ◌+◌, ◌%◌, ◌^◌, ◌==◌, ◌&&◌, ◌≡◌, Bool, true, false, Option, none, some, List, [],
  ◌∷◌, codes, starts_with, replicate, take, if◌then◌else◌,
}
use linux_kernel_prog.Kernel.{Result, ok, err, Errno}
use linux_kernel_prog.Mm.Slub.{
  Slab, new_slab, no_slab, kmem_cache_alloc, kmem_cache_free, kmem_cache_destroy,
}

pub record NetDevice : Type 0 where
  pub magic : ℕ
  pub device_id : ℕ
  pub name : List ℕ
  pub ip_addr : ℕ
  pub flags : ℕ

abbrev pub net_magic : ℕ
net_magic = 0xDECE1234

-- `sizeof(dev->name)`
abbrev pub name_size : ℕ
name_size = 12

unfoldable pub net_device_constructor : NetDevice
net_device_constructor = record {
  magic = net_magic;
  device_id = 0;
  name = replicate name_size 0;
  ip_addr = 0;
  flags = 0;
}

-- What `net_device_free` makes of a device.
unfoldable pub cleared : NetDevice → NetDevice
cleared dev = record dev {
  magic = 0x12345678;
  device_id = 0;
  name = replicate name_size 0;
  ip_addr = 0;
  flags = 0;
}

-- `strncpy` of C: `n` bytes of the destination, filled up with NUL.
unfoldable pub strncpy : (n : ℕ) → (src dst : List ℕ) → List ℕ
strncpy zero src dst = dst
strncpy (suc n) src [] = []
strncpy (suc n) [] (d ∷ dst) = 0 ∷ strncpy n [] dst
strncpy (suc n) (c ∷ src) (d ∷ dst) = c ∷ strncpy n src dst

unfoldable pub fill_device_data : (id : ℕ) (name : List ℕ) (ip : ℕ) → NetDevice → NetDevice
unfolding strncpy
fill_device_data id name ip dev = record dev {
  magic = net_magic;
  device_id = id;
  name = strncpy 11 name dev.name;
  ip_addr = ip;
  flags = (0xACE50000 + id) % 2 ^ 32;
}

pub record Devices : Type 0 where
  pub net_device_cache : Slab
  pub mem : ℕ → NetDevice

abbrev pub update : (ℕ → NetDevice) → ℕ → NetDevice → ℕ → NetDevice
update mem a dev b = if b == a then dev else mem b

unfoldable pub create_cache : Devices
unfolding net_device_constructor
create_cache = record { net_device_cache = new_slab; mem = λ a. net_device_constructor }

unfoldable pub net_device_alloc : Option ℕ → Devices → Devices
net_device_alloc p d = record d { net_device_cache = kmem_cache_alloc p d.net_device_cache }

unfoldable pub net_device_free : Option ℕ → Devices → Devices
unfolding kmem_cache_free cleared
net_device_free none d = d
net_device_free (some a) d = record {
  net_device_cache = kmem_cache_free (some a) d.net_device_cache;
  mem = update d.mem a (cleared (d.mem a));
}

-- `fill_device_data` on the device at an address.
unfoldable pub fill_at : (a id : ℕ) (name : List ℕ) (ip : ℕ) → Devices → Devices
unfolding fill_device_data
fill_at a id name ip d = record d { mem = update d.mem a (fill_device_data id name ip (d.mem a)) }

-- Which of its messages the second allocation prints.
pub data Verdict : Type 0 where
  data_leak : Verdict
  safe : Verdict
  different : Verdict
  no_device : Verdict

unfoldable pub verdict : (dev1 dev2 : ℕ) → Devices → Verdict
verdict dev1 dev2 d =
    if dev1 == dev2
    then (if ((d.mem dev2).device_id == 501) && starts_with (codes "wlan1") (d.mem dev2).name
        then data_leak
        else safe)
    else different

-- Steps 3 and 4: the second allocation.
unfoldable pub reallocate : (dev1 : ℕ) → Option ℕ → Devices → Verdict × Devices
unfolding net_device_alloc net_device_free verdict
reallocate dev1 none d = (no_device, d)
reallocate dev1 (some b) d =
    let d' = net_device_alloc (some b) d in (verdict dev1 b d', net_device_free (some b) d')

abbrev pub destroy_cache : Devices → Devices
destroy_cache d = record d { net_device_cache = kmem_cache_destroy d.net_device_cache }

-- The result, what is printed about the second device, and the cache at the end.
unfoldable pub safe_alloc_init :
    (created : Bool) (first second : Option ℕ) → Result ℕ × Verdict × Devices
unfolding create_cache net_device_alloc fill_at net_device_free reallocate
safe_alloc_init false first second =
    (err Errno.enomem, no_device, record create_cache { net_device_cache = no_slab })
safe_alloc_init true none second = (ok 0, no_device, destroy_cache create_cache)
safe_alloc_init true (some a) second =
    let d1 = net_device_alloc (some a) create_cache in
    let d2 = net_device_free (some a) (fill_at a 501 (codes "wlan1") 0xC0A80103 d1) in
    let r = reallocate a second d2 in (ok 0, r.0, destroy_cache r.1)
