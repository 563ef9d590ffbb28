-- ===== src/Notifiers/Panic/Load.antt =====
-- The load and the unload of panic_notifier.c, over the kernel's chain of panic notifiers.
use linux_kernel_prog.Prelude.{ℕ, ◌≡◌, Option, none, some, Option-cases, ◌⊎◌, inl, inr}
use linux_kernel_prog.Kernel.{Result, ok, err, Errno}
use linux_kernel_prog.Notifiers.Chain.{Block, ChainApi, IsChain}

-- The callback of `panic_notifier_block`, by name.
pub data Callback : Type 0 where
  panic_event : Callback

abbrev pub panic_notifier_block : Block Callback
panic_notifier_block = record { notifier_call = panic_event; priority = 0 }

abbrev pub ret_of : Option Errno → Result ℕ
ret_of none = ok 0
ret_of (some e) = err e

module _ (api : ChainApi Callback) where
  -- The result, and the chain.
  unfoldable pub panic_notifier_init : api.Chain → Result ℕ × api.Chain
  panic_notifier_init c = let r = api.register panic_notifier_block c in (ret_of r.0, r.1)

  unfoldable pub panic_notifier_exit : api.Chain → api.Chain
  panic_notifier_exit c = api.unregister panic_notifier_block c

  -- A load that fails leaves the chain as it was, and an unload undoes one that succeeds.
  pub panic_notifier_init-exit :
      (chain : IsChain api) (c : api.Chain)
      → let r = panic_notifier_init c in
        ((r.0 ≡ ok 0) × (panic_notifier_exit r.1 ≡ c)) ⊎ ((e : Errno) × (r.0 ≡ err e) × (r.1 ≡ c))
  unfolding panic_notifier_init panic_notifier_exit
  panic_notifier_init-exit chain c = elim (Option-cases (api.register panic_notifier_block c).0) [
    | inl h ↦ inl (rw h, chain.undone panic_notifier_block c h)
    | inr (e, h) ↦ inr (e, rw h, chain.refused panic_notifier_block c e h)
  ]
