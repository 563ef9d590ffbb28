-- ===== src/Notifiers/Pm.antt =====
-- notifiers/part1/pm_notifier.c: counters of power management events. Registration is a call of the
-- kernel with nothing behind it but its result.
pub mod History
mod Examples
use linux_kernel_prog.Prelude.{
  ℕ, ◌+◌, ◌%◌, ◌^◌, ◌==◌, ◌&&◌, Bool, Option, none, some, List, [], ◌∷◌, if◌then◌else◌,
}
use linux_kernel_prog.Kernel.{Result, ok, err, Errno}

-- The events of the `switch`, and any other.
pub data PmEvent : Type 0 where
  pm_suspend_prepare : PmEvent
  pm_post_suspend : PmEvent
  pm_hibernation_prepare : PmEvent
  pm_post_hibernation : PmEvent
  pm_restore_prepare : PmEvent
  pm_post_restore : PmEvent
  unknown : ℕ → PmEvent

pub record Counts : Type 0 where
  pub suspend_count : ℕ
  pub resume_count : ℕ
  pub hibernate_count : ℕ

abbrev pub no_counts : Counts
no_counts = record { suspend_count = 0; resume_count = 0; hibernate_count = 0 }

pub data Notify : Type 0 where
  notify_ok : Notify
  notify_done : Notify

-- `++` on an unsigned long of 64 bits.
abbrev pub increment : ℕ → ℕ
increment n = (n + 1) % 2 ^ 64

unfoldable pub pm_event_handler : PmEvent → Counts → Notify × Counts
pm_event_handler pm_suspend_prepare c =
    (notify_ok, record c { suspend_count = increment c.suspend_count })
pm_event_handler pm_post_suspend c =
    (notify_ok, record c { resume_count = increment c.resume_count })
pm_event_handler pm_hibernation_prepare c =
    (notify_ok, record c { hibernate_count = increment c.hibernate_count })
pm_event_handler pm_post_hibernation c = (notify_ok, c)
pm_event_handler pm_restore_prepare c = (notify_ok, c)
pm_event_handler pm_post_restore c = (notify_ok, c)
pm_event_handler (unknown e) c = (notify_done, c)

-- The last message of an unload.
pub data Summary : Type 0 where
  no_events : Summary
  captured : ℕ → Summary

-- The statistics that are printed, and the last message.
unfoldable pub pm_notifier_exit : Counts → Counts × Summary
pm_notifier_exit c = (
  c,
  if (c.suspend_count == 0) && (c.resume_count == 0) && (c.hibernate_count == 0)
      then no_events
      else captured ((c.suspend_count + c.resume_count + c.hibernate_count) % 2 ^ 64),
)

unfoldable pub pm_notifier_init : Option Errno → Result ℕ
pm_notifier_init none = ok 0
pm_notifier_init (some e) = err e
