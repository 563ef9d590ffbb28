-- ===== src/Notifiers/Oom/Examples.antt =====
-- The theorem on oom_notifier.c at three events.
use linux_kernel_prog.Prelude.{ℕ, ◌%◌, ◌^◌, ◌≡◌, refl, [], ◌∷◌, length, some, none}
use linux_kernel_prog.Notifiers.Oom.{lost, trends, oom_events, oom_events-trends}

oom_events-trends_example :
    ((oom_events 100 (30 ∷ 0 ∷ 40 ∷ [])).1.oom_event_count
      ≡ length {A = ℕ} (30 ∷ 0 ∷ 40 ∷ []) % 2 ^ 64)
    × ((oom_events 100 (30 ∷ 0 ∷ 40 ∷ [])).0 ≡ trends 100 (30 ∷ 0 ∷ 40 ∷ []))
oom_events-trends_example = oom_events-trends 100 (30 ∷ 0 ∷ 40 ∷ [])

printed : (oom_events 100 (30 ∷ 0 ∷ 40 ∷ [])).0 ≡ none ∷ some (lost 40) ∷ some (lost 60) ∷ []
unfolding oom_events
printed = refl
