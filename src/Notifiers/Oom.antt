-- ===== src/Notifiers/Oom.antt =====
-- notifiers/part1/oom_notifier.c: the trend of free memory from one out-of-memory event to the next.
mod Examples
use linux_kernel_prog.Prelude.{
  ℕ, zero, suc, ◌+◌, ◌-◌, ◌%◌, ◌^◌, ◌≡◌, ap, refl, ltb, ◌==◌, Bool, Option, none, some, List, [],
  ◌∷◌, arith, if◌then◌else◌, length,
}
use linux_kernel_prog.Kernel.{Result, ok, err, Errno}

pub record Stats : Type 0 where
  pub oom_event_count : ℕ
  pub last_free_pages : ℕ

-- "Lost" or "Gained" with a number of pages.
pub data Trend : Type 0 where
  lost : ℕ → Trend
  gained : ℕ → Trend

-- `delta` of two page counts, each below 2^63, and what is printed of it.
unfoldable pub trend : (free_pages last : ℕ) → Trend
trend free_pages last =
    if ltb free_pages last then lost (last - free_pages) else gained (free_pages - last)

-- With the trend if it is printed.
unfoldable pub oom_event_handler : (freeram : ℕ) → Stats → Option Trend × Stats
unfolding trend
oom_event_handler freeram s = (
  if ltb 0 s.last_free_pages then some (trend freeram s.last_free_pages) else none,
  record { oom_event_count = (s.oom_event_count + 1) % 2 ^ 64; last_free_pages = freeram },
)

-- `freeram` at the load.
unfoldable pub oom_notifier_init : Option Errno → (freeram : ℕ) → Result ℕ × Stats
oom_notifier_init (some e) freeram = (err e, record { oom_event_count = 0; last_free_pages = 0 })
oom_notifier_init none freeram = (ok 0, record { oom_event_count = 0; last_free_pages = freeram })

-- The statistics that an unload prints.
unfoldable pub show_stats : Stats → ℕ × ℕ × ℕ
show_stats s = (s.oom_event_count, s.last_free_pages, 0)

-- The events after a load with free memory `first`, the newest first: what is printed of each, and
-- the state.
unfoldable pub oom_events : (first : ℕ) → List ℕ → List (Option Trend) × Stats
unfolding oom_event_handler oom_notifier_init
oom_events first [] = ([], (oom_notifier_init none first).1)
oom_events first (free ∷ earlier) =
    let before = oom_events first earlier in
    let r = oom_event_handler free before.1 in (r.0 ∷ before.0, r.1)

-- The trends between neighbours.
abbrev pub trends : (first : ℕ) → List ℕ → List (Option Trend)
trends first [] = []
trends first (free ∷ []) = (if ltb 0 first then some (trend free first) else none) ∷ []
trends first (free ∷ before ∷ earlier) =
    (if ltb 0 before then some (trend free before) else none) ∷ trends first (before ∷ earlier)

-- After any sequence of events, the first after a load, the counter is their number, modulo 2^64,
-- and what was printed of each is the gain or loss of free memory since the event before it, or since
-- the load, where that one found any free memory.
pub oom_events-trends :
    (first : ℕ) (events : List ℕ)
    → ((oom_events first events).1.oom_event_count ≡ length events % 2 ^ 64)
      × ((oom_events first events).0 ≡ trends first events)
unfolding oom_events oom_event_handler oom_notifier_init
oom_events-trends first [] = (refl, refl)
oom_events-trends first (free ∷ []) = (refl, refl)
oom_events-trends first (free ∷ before ∷ earlier) =
    let (n, ts) = oom_events-trends first (before ∷ earlier) in
    (
      omega (arith, n),
      ap (λ rest. (if ltb 0 before then some (trend free before) else none) ∷ rest) ts,
    )
