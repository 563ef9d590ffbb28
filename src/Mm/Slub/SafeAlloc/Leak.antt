-- ===== src/Mm/Slub/SafeAlloc/Leak.antt =====
-- No device hands its data on to the next owner of its memory.
use linux_kernel_prog.Prelude.{
  ℕ, zero, suc, ◌≤◌, ◌≡◌, ◌≢◌, refl, true, false, Option, none, some, List, [], ◌∷◌, arith, count,
  get_or, length, replicate, ◌==◌, Bool-cases, inl, inr, count-erase,
}
use linux_kernel_prog.Kernel.{ok}
use linux_kernel_prog.Mm.Slub.{kmem_cache_free}
use linux_kernel_prog.Mm.Slub.SafeAlloc.{
  NetDevice, Devices, data_leak, name_size, cleared, strncpy, net_device_constructor,
  fill_device_data, create_cache, net_device_alloc, net_device_free, fill_at, safe_alloc_init,
  update, reallocate, verdict,
}

-- Any use of the wrappers: an allocation gives an address that is not live, and only a live device
-- is filled or freed.
pub data Step (d : Devices) : Devices → Type 0 where
  alloc : (a : ℕ) → count a d.net_device_cache.live ≡ 0 → Step d (net_device_alloc (some a) d)
  fill :
      (a id : ℕ) (name : List ℕ) (ip : ℕ)
      → count a d.net_device_cache.live ≢ 0
      → Step d (fill_at a id name ip d)
  free : (a : ℕ) → count a d.net_device_cache.live ≢ 0 → Step d (net_device_free (some a) d)

pub data Reach : Devices → Type 0 where
  start : Reach create_cache
  later : {d e : Devices} → Reach d → Step d e → Reach e

-- There is no data of a driver in the device.
pub record IsBlank (dev : NetDevice) : Type 0 where
  pub device_id : dev.device_id ≡ 0
  pub name : dev.name ≡ replicate name_size 0
  pub ip_addr : dev.ip_addr ≡ 0
  pub flags : dev.flags ≡ 0

-- The name of a device is a C string in its 12 bytes.
pub record IsNamed (dev : NetDevice) : Type 0 where
  pub size : length dev.name ≡ 12
  pub terminated : get_or dev.name 11 0 ≡ 0

pub record IsSafe (d : Devices) : Type 0 where
  pub blank : (a : ℕ) → count a d.net_device_cache.live ≡ 0 → IsBlank (d.mem a)
  pub named : (a : ℕ) → IsNamed (d.mem a)
  pub once : (a : ℕ) → count a d.net_device_cache.live ≤ 1
  pub alive : d.net_device_cache.exists ≡ true
  pub no_bad : d.net_device_cache.bad_frees ≡ 0

length-strncpy : (n : ℕ) (src dst : List ℕ) → length (strncpy n src dst) ≡ length dst
unfolding strncpy
length-strncpy zero src dst = refl
length-strncpy (suc n) src [] = refl
length-strncpy (suc n) [] (d ∷ dst) = omega (arith, length-strncpy n [] dst)
length-strncpy (suc n) (c ∷ src) (d ∷ dst) = omega (arith, length-strncpy n src dst)

-- Behind its `n` bytes `strncpy` changes nothing.
strncpy-beyond :
    (n : ℕ) (src dst : List ℕ) (i : ℕ) → n ≤ i → get_or (strncpy n src dst) i 0 ≡ get_or dst i 0
unfolding strncpy
strncpy-beyond zero src dst i h = refl
strncpy-beyond (suc n) src [] i h = refl
strncpy-beyond (suc n) src (d ∷ dst) zero h = absurd (omega arith)
strncpy-beyond (suc n) [] (d ∷ dst) (suc i) h = strncpy-beyond n [] dst i (omega arith)
strncpy-beyond (suc n) (c ∷ src) (d ∷ dst) (suc i) h = strncpy-beyond n src dst i (omega arith)

fill-IsNamed :
    (id : ℕ) (name : List ℕ) (ip : ℕ) (dev : NetDevice)
    → IsNamed dev
    → IsNamed (fill_device_data id name ip dev)
unfolding fill_device_data
fill-IsNamed id name ip dev h = record {
  size = omega (arith, length-strncpy 11 name dev.name, h.size);
  terminated = omega (arith, strncpy-beyond 11 name dev.name 11 (omega arith), h.terminated);
}

cleared-IsBlank : (dev : NetDevice) → IsBlank (cleared dev)
unfolding cleared
cleared-IsBlank dev = record { device_id = refl; name = refl; ip_addr = refl; flags = refl }

cleared-IsNamed : (dev : NetDevice) → IsNamed (cleared dev)
unfolding cleared
cleared-IsNamed dev = record { size = refl; terminated = refl }

-- What holds of the new device at `a` and of the old ones elsewhere holds after an update.
update-at :
    (P : NetDevice → Type 0) (mem : ℕ → NetDevice) (a b : ℕ) (dev : NetDevice)
    → (b ≡ a → P dev)
    → (b ≢ a → P (mem b))
    → P (update mem a dev b)
update-at P mem a b dev new old = elim (Bool-cases (b == a)) [
  | inl e ↦ rw e (new (ground arith))
  | inr e ↦ rw e (old (ground arith))
]

Step-IsSafe : {d e : Devices} → Step d e → IsSafe d → IsSafe e
unfolding net_device_alloc net_device_free fill_at kmem_cache_free
Step-IsSafe {d} (alloc a fresh) h = record {
  blank = λ b dead. h.blank b (ground arith);
  named = h.named;
  once = λ b. ground (arith, h.once b);
  alive = h.alive;
  no_bad = h.no_bad;
}
Step-IsSafe {d} (fill a id name ip live) h = record {
  blank = λ b dead.
      update-at IsBlank d.mem a b (fill_device_data id name ip (d.mem a))
        (λ e. absurd (live (ground arith))) (λ ne. h.blank b dead);
  named = λ b.
      update-at IsNamed d.mem a b (fill_device_data id name ip (d.mem a))
        (λ e. fill-IsNamed id name ip (d.mem a) (h.named a)) (λ ne. h.named b);
  once = h.once;
  alive = h.alive;
  no_bad = h.no_bad;
}
Step-IsSafe {d} (free a live) h = record {
  blank = λ b dead.
      update-at IsBlank d.mem a b (cleared (d.mem a)) (λ e. cleared-IsBlank (d.mem a))
        (λ ne. h.blank b (ground (arith, h.alive, count-erase a b d.net_device_cache.live)));
  named = λ b.
      update-at IsNamed d.mem a b (cleared (d.mem a)) (λ e. cleared-IsNamed (d.mem a))
        (λ ne. h.named b);
  once = λ b. ground (arith, h.once b, h.alive, count-erase a b d.net_device_cache.live);
  alive = ground (arith, h.alive);
  no_bad = ground (arith, h.alive, h.no_bad);
}

-- Whatever sequence of allocations, fills and frees goes before, where an allocation gives memory
-- that no device has and only live devices are filled or freed: memory that no device has holds
-- no data of an earlier one, so an allocation hands none out; every name ends with a NUL inside
-- of its 12 bytes; and nothing was freed that was not live.
pub Reach-IsSafe : {d : Devices} → Reach d → IsSafe d
unfolding create_cache net_device_constructor
Reach-IsSafe start = record {
  blank = λ a e. record { device_id = refl; name = refl; ip_addr = refl; flags = refl };
  named = λ a. record { size = refl; terminated = refl };
  once = λ a. omega arith;
  alive = refl;
  no_bad = refl;
}
Reach-IsSafe (later r st) = Step-IsSafe st (Reach-IsSafe r)

-- A device that is freed and allocated again at the same address does not have the magic number that
-- the constructor gave it, since no wrapper sets it again.
pub net_device_free-magic :
    (d : Devices) (a : ℕ)
    → ((net_device_alloc (some a) (net_device_free (some a) d)).mem a).magic
      ≢ net_device_constructor.magic
unfolding net_device_alloc net_device_free cleared net_device_constructor
net_device_free-magic d a =
    update-at (λ dev. dev.magic ≢ 0xDECE1234) d.mem a a (cleared (d.mem a))
      (λ e z. absurd (omega arith)) (λ ne. absurd (ne refl))

-- If the cache is created then, whatever the two allocations give, the load returns 0, does not
-- report a data leak, and leaves no device live and no cache, with no bad free.
pub safe_alloc_init-clean :
    (first second : Option ℕ)
    → let (ret, verdict, d) = safe_alloc_init true first second in
      (ret ≡ ok 0)
      × (verdict ≢ data_leak)
      × (d.net_device_cache.live ≡ [])
      × (d.net_device_cache.bad_frees ≡ 0)
      × (d.net_device_cache.exists ≡ false)
unfolding safe_alloc_init reallocate create_cache net_device_alloc net_device_free fill_at
    kmem_cache_free verdict cleared
safe_alloc_init-clean none second = (refl, λ e. cc, refl, refl, refl)
safe_alloc_init-clean (some a) none = (refl, λ e. cc, ground arith, ground arith, ground arith)
safe_alloc_init-clean (some a) (some b) =
    (refl, λ e. ground arith, ground arith, ground arith, ground arith)
