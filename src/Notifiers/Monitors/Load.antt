-- ===== src/Notifiers/Monitors/Load.antt =====
-- The chains after loading and unloading the monitors.
use linux_kernel_prog.Prelude.{◌≡◌, Option, none, some, Option-cases, inl, inr}
use linux_kernel_prog.Kernel.{Errno}
use linux_kernel_prog.Notifiers.Chain.{Block, ChainApi, IsChain}
use linux_kernel_prog.Notifiers.Monitors.{
  Callback, module_nb, netdev_nb, inet_nb, start_thread, module_notifier_init, netdev_notifier_init,
  inet_notifier_init,
}

-- A load that fails leaves the chain as it was, and one that succeeds is undone by the unload.
pub record Undone (api : ChainApi Callback) (b : Block Callback) (c : api.Chain)
    (r : Option Errno × api.Chain) : Type 0 where
  pub rolled_back : (e : Errno) → r.0 ≡ some e → r.1 ≡ c
  pub unloads : r.0 ≡ none → api.unregister b r.1 ≡ c

module _ (api : ChainApi Callback) (chain : IsChain api) where
  start_thread-Undone :
      (b : Block Callback) (thread : Option Errno) (c c' : api.Chain)
      → api.unregister b c' ≡ c
      → Undone api b c (start_thread api b thread c')
  unfolding start_thread
  start_thread-Undone b none c c' back = record { rolled_back = λ e h. cc; unloads = λ h. back }
  start_thread-Undone b (some e) c c' back = record { rolled_back = λ x h. back; unloads = λ h. cc }

  refused-Undone :
      (b : Block Callback) (c : api.Chain) (e : Errno)
      → (api.register b c).0 ≡ some e
      → Undone api b c (some e, (api.register b c).1)
  refused-Undone b c e h = record { rolled_back = λ x z. chain.refused b c e h; unloads = λ z. cc }

  module-Undone :
      (thread : Option Errno) (c : api.Chain)
      → Undone api module_nb c (module_notifier_init api thread c)
  unfolding module_notifier_init
  module-Undone thread c = elim (Option-cases (api.register module_nb c).0) [
    | inl e ↦
        rw (module_notifier_init, e)
          (start_thread-Undone module_nb thread c (api.register module_nb c).1
            (chain.undone module_nb c e))
    | inr (x, e) ↦ rw (module_notifier_init, e) (refused-Undone module_nb c x e)
  ]

  netdev-Undone :
      (thread : Option Errno) (c : api.Chain)
      → Undone api netdev_nb c (netdev_notifier_init api thread c)
  unfolding netdev_notifier_init
  netdev-Undone thread c = elim (Option-cases (api.register netdev_nb c).0) [
    | inl e ↦
        rw (netdev_notifier_init, e)
          (start_thread-Undone netdev_nb thread c (api.register netdev_nb c).1
            (chain.undone netdev_nb c e))
    | inr (x, e) ↦ rw (netdev_notifier_init, e) (refused-Undone netdev_nb c x e)
  ]

  inet-Undone :
      (thread : Option Errno) (c : api.Chain)
      → Undone api inet_nb c (inet_notifier_init api thread c)
  unfolding inet_notifier_init
  inet-Undone thread c = elim (Option-cases (api.register inet_nb c).0) [
    | inl e ↦
        rw (inet_notifier_init, e)
          (start_thread-Undone inet_nb thread c (api.register inet_nb c).1
            (chain.undone inet_nb c e))
    | inr (x, e) ↦ rw (inet_notifier_init, e) (refused-Undone inet_nb c x e)
  ]

  -- Over a chain on which a registration that fails changes nothing and one that succeeds is
  -- undone by unregistering: each of the three monitors leaves its chain as it was when its load
  -- fails, at the registration or at the thread, and the chain that a successful load makes is
  -- undone by unregistering the block.
  pub monitors-Undone :
      (thread : Option Errno) (c : api.Chain)
      → Undone api module_nb c (module_notifier_init api thread c)
        × Undone api netdev_nb c (netdev_notifier_init api thread c)
        × Undone api inet_nb c (inet_notifier_init api thread c)
  monitors-Undone thread c = (module-Undone thread c, netdev-Undone thread c, inet-Undone thread c)
