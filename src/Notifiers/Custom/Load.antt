-- ===== src/Notifiers/Custom/Load.antt =====
-- The chain after loading and unloading custom_notifier.c.
use linux_kernel_prog.Prelude.{
  ◌≡◌, refl, sym, ◌∙◌, ap, Option, none, some, List, [], ◌∷◌, Option-cases, inl, inr,
}
use linux_kernel_prog.Kernel.{Errno}
use linux_kernel_prog.Notifiers.Chain.{Block, ChainApi, IsChain, insert}
use linux_kernel_prog.Notifiers.Custom.{
  Callback, high_priority_nb, medium_priority_nb, low_priority_nb, unregister_low,
  unregister_medium, unregister_high, start_generator, register_high, register_medium,
  custom_notifier_init, custom_notifier_exit,
}

-- The result of a load, or of its last steps, over the chain `base`: an error leaves `base`, and a
-- success a chain that the unloading takes back to it.
pub record Stage (api : ChainApi Callback) (base : api.Chain) (r : Option Errno × api.Chain)
    : Type 0 where
  pub rolled_back : (e : Errno) → r.0 ≡ some e → r.1 ≡ base
  pub unloads : r.0 ≡ none → custom_notifier_exit api r.1 ≡ base

module _ (api : ChainApi Callback) (chain : IsChain api) where
  start-Stage :
      (base c : api.Chain) (thread : Option Errno)
      → custom_notifier_exit api c ≡ base
      → Stage api base (start_generator api thread c)
  unfolding start_generator unregister_high custom_notifier_exit
  start-Stage base c none back = record { rolled_back = λ e h. cc; unloads = λ h. back }
  start-Stage base c (some e) back = record { rolled_back = λ e h. back; unloads = λ h. cc }

  high-Stage :
      (base c : api.Chain) (thread : Option Errno)
      → unregister_medium api c ≡ base
      → Stage api base (register_high api thread c)
  unfolding register_high unregister_medium custom_notifier_exit
  high-Stage base c thread back = elim (Option-cases (api.register high_priority_nb c).0) [
    | inl e ↦
        rw (register_high, e)
          (start-Stage base (api.register high_priority_nb c).1 thread
            (ap (unregister_medium api) (chain.undone high_priority_nb c e) ∙ back))
    | inr (x, e) ↦
        rw (register_high, e)
          (record {
            rolled_back =
                λ y h. ap (unregister_medium api) (chain.refused high_priority_nb c x e) ∙ back;
            unloads = λ h. cc;
          })
  ]

  medium-Stage :
      (base c : api.Chain) (thread : Option Errno)
      → unregister_low api c ≡ base
      → Stage api base (register_medium api thread c)
  unfolding register_medium unregister_medium
  medium-Stage base c thread back = elim (Option-cases (api.register medium_priority_nb c).0) [
    | inl e ↦
        rw (register_medium, e)
          (high-Stage base (api.register medium_priority_nb c).1 thread
            (ap (unregister_low api) (chain.undone medium_priority_nb c e) ∙ back))
    | inr (x, e) ↦
        rw (register_medium, e)
          (record {
            rolled_back =
                λ y h. ap (unregister_low api) (chain.refused medium_priority_nb c x e) ∙ back;
            unloads = λ h. cc;
          })
  ]

  -- Over a chain on which a registration that fails changes nothing and one that succeeds is
  -- undone by unregistering: whichever step of a load fails, the chain is what it was before; and
  -- after a load that succeeds it is so again when the module is unloaded.
  pub custom_notifier_init-Stage :
      (thread : Option Errno) (c : api.Chain) → Stage api c (custom_notifier_init api thread c)
  unfolding custom_notifier_init unregister_low
  custom_notifier_init-Stage thread c = elim (Option-cases (api.register low_priority_nb c).0) [
    | inl e ↦
        rw (custom_notifier_init, e)
          (medium-Stage c (api.register low_priority_nb c).1 thread
            (chain.undone low_priority_nb c e))
    | inr (x, e) ↦
        rw (custom_notifier_init, e)
          (record { rolled_back = λ y h. chain.refused low_priority_nb c x e; unloads = λ h. cc })
  ]

  start-blocks :
      (thread : Option Errno) (c : api.Chain)
      → (start_generator api thread c).0 ≡ none
      → (start_generator api thread c).1 ≡ c
  unfolding start_generator
  start-blocks none c h = refl
  start-blocks (some e) c h = cc

  high-blocks :
      (thread : Option Errno) (c : api.Chain)
      → (register_high api thread c).0 ≡ none
      → api.blocks (register_high api thread c).1 ≡ insert high_priority_nb (api.blocks c)
  unfolding register_high
  high-blocks thread c h = elim (Option-cases (api.register high_priority_nb c).0) [
    | inl e ↦
        let c' = (api.register high_priority_nb c).1 in
        let same : register_high api thread c ≡ start_generator api thread c' =
          rw (register_high, e) in
        ap api.blocks (ap (λ r. r.1) same ∙ start-blocks thread c' (sym (ap (λ r. r.0) same) ∙ h))
        ∙ chain.ordered high_priority_nb c e
    | inr (x, e) ↦ let ret : (register_high api thread c).0 ≡ some x = rw (register_high, e) in cc
  ]

  medium-blocks :
      (thread : Option Errno) (c : api.Chain)
      → (register_medium api thread c).0 ≡ none
      → api.blocks (register_medium api thread c).1
        ≡ insert high_priority_nb (insert medium_priority_nb (api.blocks c))
  unfolding register_medium
  medium-blocks thread c h = elim (Option-cases (api.register medium_priority_nb c).0) [
    | inl e ↦
        let c' = (api.register medium_priority_nb c).1 in
        let same : register_medium api thread c ≡ register_high api thread c' =
          rw (register_medium, e) in
        ap api.blocks (ap (λ r. r.1) same)
        ∙ high-blocks thread c' (sym (ap (λ r. r.0) same) ∙ h)
        ∙ ap (insert high_priority_nb) (chain.ordered medium_priority_nb c e)
    | inr (x, e) ↦
        let ret : (register_medium api thread c).0 ≡ some x = rw (register_medium, e) in cc
  ]

  -- After a load that succeeds on an empty chain, the callbacks are called by falling priority,
  -- though they were registered by rising priority.
  pub custom_notifier_init-order :
      (thread : Option Errno) (c : api.Chain)
      → api.blocks c ≡ []
      → (custom_notifier_init api thread c).0 ≡ none
      → api.blocks (custom_notifier_init api thread c).1
        ≡ high_priority_nb ∷ medium_priority_nb ∷ low_priority_nb ∷ []
  unfolding custom_notifier_init
  custom_notifier_init-order thread c empty h =
      elim (Option-cases (api.register low_priority_nb c).0) [
        | inl e ↦
            let c' = (api.register low_priority_nb c).1 in
            let same : custom_notifier_init api thread c ≡ register_medium api thread c' =
              rw (custom_notifier_init, e) in
            let three = λ (bs : List (Block Callback)).
              insert high_priority_nb (insert medium_priority_nb bs) in
            ap api.blocks (ap (λ r. r.1) same)
            ∙ medium-blocks thread c' (sym (ap (λ r. r.0) same) ∙ h)
            ∙ ap three (chain.ordered low_priority_nb c e)
            ∙ ap (λ bs. three (insert low_priority_nb bs)) empty
        | inr (x, e) ↦
            let ret : (custom_notifier_init api thread c).0 ≡ some x =
              rw (custom_notifier_init, e) in
            cc
      ]
