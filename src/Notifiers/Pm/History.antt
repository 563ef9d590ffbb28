-- ===== src/Notifiers/Pm/History.antt =====
-- The counters of pm_notifier.c after any sequence of events.
use linux_kernel_prog.Prelude.{
  ℕ, ◌+◌, ◌%◌, ◌^◌, ◌<◌, ◌≡◌, refl, List, [], ◌∷◌, arith, ◌==◌, if◌then◌else◌,
}
use linux_kernel_prog.Notifiers.Pm.{
  PmEvent, pm_suspend_prepare, pm_post_suspend, pm_hibernation_prepare, pm_post_hibernation,
  pm_restore_prepare, pm_post_restore, unknown, Counts, no_counts, pm_event_handler, no_events,
  captured, pm_notifier_exit,
}

-- The counters after the events, the newest first.
unfoldable pub counts_after : List PmEvent → Counts
unfolding pm_event_handler
counts_after [] = no_counts
counts_after (e ∷ earlier) = (pm_event_handler e (counts_after earlier)).1

-- How often events of a weight occur.
abbrev pub tally : (PmEvent → ℕ) → List PmEvent → ℕ
tally w [] = 0
tally w (e ∷ es) = w e + tally w es

abbrev pub is_suspend : PmEvent → ℕ
is_suspend pm_suspend_prepare = 1
is_suspend _ = 0

abbrev pub is_resume : PmEvent → ℕ
is_resume pm_post_suspend = 1
is_resume _ = 0

abbrev pub is_hibernate : PmEvent → ℕ
is_hibernate pm_hibernation_prepare = 1
is_hibernate _ = 0

pub record IsTallied (es : List PmEvent) (c : Counts) : Type 0 where
  pub suspends : c.suspend_count ≡ tally is_suspend es % 2 ^ 64
  pub resumes : c.resume_count ≡ tally is_resume es % 2 ^ 64
  pub hibernates : c.hibernate_count ≡ tally is_hibernate es % 2 ^ 64

handler-IsTallied :
    (e : PmEvent) (es : List PmEvent) (c : Counts)
    → IsTallied es c
    → IsTallied (e ∷ es) (pm_event_handler e c).1
unfolding pm_event_handler
handler-IsTallied pm_suspend_prepare es c h = ground (arith, h.suspends, h.resumes, h.hibernates)
handler-IsTallied pm_post_suspend es c h = ground (arith, h.suspends, h.resumes, h.hibernates)
handler-IsTallied pm_hibernation_prepare es c h =
    ground (arith, h.suspends, h.resumes, h.hibernates)
handler-IsTallied pm_post_hibernation es c h = ground (arith, h.suspends, h.resumes, h.hibernates)
handler-IsTallied pm_restore_prepare es c h = ground (arith, h.suspends, h.resumes, h.hibernates)
handler-IsTallied pm_post_restore es c h = ground (arith, h.suspends, h.resumes, h.hibernates)
handler-IsTallied (unknown n) es c h = ground (arith, h.suspends, h.resumes, h.hibernates)

-- After any sequence of events each counter is the number of its events, modulo 2^64.
pub counts_after-IsTallied : (es : List PmEvent) → IsTallied es (counts_after es)
unfolding counts_after
counts_after-IsTallied [] = record { suspends = refl; resumes = refl; hibernates = refl }
counts_after-IsTallied (e ∷ es) =
    handler-IsTallied e es (counts_after es) (counts_after-IsTallied es)

-- The events that are counted at all.
abbrev pub is_counted : PmEvent → ℕ
is_counted e = is_suspend e + is_resume e + is_hibernate e

tally-is_counted :
    (es : List PmEvent)
    → tally is_counted es ≡ tally is_suspend es + tally is_resume es + tally is_hibernate es
tally-is_counted [] = refl
tally-is_counted (e ∷ es) = omega (arith, tally-is_counted es)

-- After events of which fewer than 2^64 were counted, the unload reports how many of them were
-- counted, or that there were none. Events of a resume from hibernation and of a restore are not
-- counted, so after such events alone it says that there were none.
pub pm_notifier_exit-captured :
    (es : List PmEvent)
    → tally is_counted es < 2 ^ 64
    → (pm_notifier_exit (counts_after es)).1
      ≡ (if tally is_counted es == 0 then no_events else captured (tally is_counted es))
unfolding pm_notifier_exit
pm_notifier_exit-captured es room =
    let h = counts_after-IsTallied es in
    let sum = tally-is_counted es in
    let a : (counts_after es).suspend_count ≡ tally is_suspend es =
      omega (arith, h.suspends, sum, room) in
    let b : (counts_after es).resume_count ≡ tally is_resume es =
      omega (arith, h.resumes, sum, room) in
    let c : (counts_after es).hibernate_count ≡ tally is_hibernate es =
      omega (arith, h.hibernates, sum, room) in
    ground (arith, a, b, c, sum, room)
