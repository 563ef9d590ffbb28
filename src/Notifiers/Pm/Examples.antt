-- ===== src/Notifiers/Pm/Examples.antt =====
-- The theorems on pm_notifier.c at a short history.
use linux_kernel_prog.Prelude.{◌≡◌, refl, List, [], ◌∷◌, arith, ◌==◌, if◌then◌else◌}
use linux_kernel_prog.Notifiers.Pm.{
  PmEvent, pm_suspend_prepare, pm_post_suspend, pm_post_hibernation, pm_restore_prepare, unknown,
  no_events, captured, pm_notifier_exit,
}
use linux_kernel_prog.Notifiers.Pm.History.{
  counts_after, IsTallied, counts_after-IsTallied, pm_notifier_exit-captured, tally, is_counted,
}

abbrev two_suspends : List PmEvent
two_suspends =
    pm_post_hibernation
    ∷ pm_post_suspend
    ∷ pm_suspend_prepare
    ∷ unknown 77
    ∷ pm_post_suspend
    ∷ pm_suspend_prepare
    ∷ []

counts_after-IsTallied_example : IsTallied two_suspends (counts_after two_suspends)
counts_after-IsTallied_example = counts_after-IsTallied two_suspends

pm_notifier_exit-captured_example : (pm_notifier_exit (counts_after two_suspends)).1 ≡ (
    if tally is_counted two_suspends == 0
    then no_events
    else captured (tally is_counted two_suspends))
pm_notifier_exit-captured_example = pm_notifier_exit-captured two_suspends (omega arith)

four : (pm_notifier_exit (counts_after two_suspends)).1 ≡ captured 4
unfolding pm_notifier_exit counts_after
four = refl

-- Three events, of which none is counted.
restored :
    (pm_notifier_exit (counts_after (pm_post_hibernation ∷ pm_restore_prepare ∷ []))).1 ≡ no_events
unfolding pm_notifier_exit counts_after
restored = refl
