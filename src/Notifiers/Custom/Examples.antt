-- ===== src/Notifiers/Custom/Examples.antt =====
-- The theorems on the custom notifier at a chain that is a list, whose registration can find a block
-- of the same priority in the way.
use linux_kernel_prog.Prelude.{
  ℕ, ◌≡◌, refl, Bool, none, some, List, [], ◌∷◌, arith, inr, leb, ◌==◌, if◌then◌else◌,
}
use linux_kernel_prog.Kernel.{Errno}
use linux_kernel_prog.Notifiers.ListChain.{list_chain, list_chain-IsChain, register}
use linux_kernel_prog.Notifiers.Chain.{Block}
use linux_kernel_prog.Notifiers.Custom.{
  Callback, high_priority_nb, medium_priority_nb, low_priority_nb, custom_notifier_init,
  event_generator_fn,
}
use linux_kernel_prog.Notifiers.Custom.Load.{
  Stage, custom_notifier_init-Stage, custom_notifier_init-order,
}
use linux_kernel_prog.Notifiers.Custom.Cycles.{cycles, Rounds, three_nbs, event_generator_fn-cycles}

-- The registration of the second block fails, since the chain has one of its priority.
abbrev busy : List (Block Callback)
busy = medium_priority_nb ∷ []

custom_notifier_init-Stage_example :
    Stage list_chain busy (custom_notifier_init list_chain none busy)
custom_notifier_init-Stage_example =
    custom_notifier_init-Stage list_chain list_chain-IsChain none busy

busy-refused : (custom_notifier_init list_chain none busy).0 ≡ some (Errno.code 17)
unfolding custom_notifier_init register
busy-refused = refl

custom_notifier_init-order_example :
    (custom_notifier_init list_chain none []).1
    ≡ high_priority_nb ∷ medium_priority_nb ∷ low_priority_nb ∷ []
unfolding custom_notifier_init register
custom_notifier_init-order_example =
    custom_notifier_init-order list_chain list_chain-IsChain none [] refl refl

-- The thread is told to stop during the third round.
abbrev stops_after_3 : ℕ → Bool
stops_after_3 i = leb 4 i

three-Rounds : Rounds stops_after_3 1 10 3
three-Rounds = record { at_most = omega arith; go_on = λ j a b. ground arith; stop = inr refl }

event_generator_fn-cycles_example :
    event_generator_fn stops_after_3 three_nbs 0 ≡ (cycles 1 3, if 3 == 0 then 0 else 3)
event_generator_fn-cycles_example = event_generator_fn-cycles stops_after_3 3 0 three-Rounds
