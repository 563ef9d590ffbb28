-- ===== src/Notifiers/Custom/Cycles.antt =====
-- The events that the thread of custom_notifier.c sends.
use linux_kernel_prog.Prelude.{
  ℕ, zero, suc, ◌+◌, ◌-◌, ◌≤◌, ◌<◌, ◌≡◌, refl, ◌∙◌, ap, ◌⊎◌, inl, inr, Bool, true, false, List, [],
  ◌∷◌, ◌++◌, arith, ◌==◌, if◌then◌else◌,
}
use mathlib.Core.Path.{subst}
use linux_kernel_prog.Notifiers.Chain.{Block}
use linux_kernel_prog.Notifiers.Custom.{
  Callback, high_priority_callback, medium_priority_callback, low_priority_callback, Print,
  high_priority_nb, medium_priority_nb, low_priority_nb, call_chain, event_cycle, generate,
  event_generator_fn, notifier_call,
}

-- Each of the three callbacks prints one event, in the order of their priorities.
abbrev pub event_prints : (event i : ℕ) → List Print
event_prints event i =
    record { by = high_priority_callback; event = event; counter = i }
    ∷ record { by = medium_priority_callback; event = event; counter = i }
    ∷ record { by = low_priority_callback; event = event; counter = i }
    ∷ []

-- Whole cycles START, WORK, STOP, numbered from the first.
abbrev pub cycles : (first n : ℕ) → List Print
cycles first zero = []
cycles first (suc n) =
    event_prints 1 first ++ event_prints 2 first ++ event_prints 3 first ++ cycles (first + 1) n

-- How many rounds are run: all of them, or those before the first round that is not begun.
pub record Rounds (should_stop : ℕ → Bool) (first most n : ℕ) : Type 0 where
  pub at_most : n ≤ most
  pub go_on : (j : ℕ) → first ≤ j → j < first + n → should_stop j ≡ false
  pub stop : (n ≡ most) ⊎ (should_stop (first + n) ≡ true)

abbrev pub three_nbs : List (Block Callback)
three_nbs = high_priority_nb ∷ medium_priority_nb ∷ low_priority_nb ∷ []

event_cycle-prints :
    (i : ℕ) (rest : List Print)
    → event_cycle three_nbs i ++ rest
      ≡ event_prints 1 i ++ event_prints 2 i ++ event_prints 3 i ++ rest
unfolding event_cycle call_chain notifier_call
event_cycle-prints i rest = refl

Rounds-next :
    {should_stop : ℕ → Bool} {first most n : ℕ}
    → Rounds should_stop first (suc most) (suc n)
    → Rounds should_stop (first + 1) most n
Rounds-next {should_stop} {first} {most} {n} r = record {
  at_most = omega (arith, r.at_most);
  go_on = λ j a b. r.go_on j (omega arith) (omega arith);
  stop = elim r.stop [
    | inl e ↦ inl (omega arith)
    | inr e ↦ inr (subst (λ j. should_stop j ≡ true) (omega arith) e)
  ];
}

generate-cycles :
    (should_stop : ℕ → Bool) (most first n event_count : ℕ)
    → Rounds should_stop first most n
    → generate should_stop three_nbs most first event_count
      ≡ (cycles first n, if n == 0 then event_count else first + n - 1)
unfolding generate
generate-cycles should_stop zero first zero event_count r = refl
generate-cycles should_stop zero first (suc n) event_count r = absurd (omega (arith, r.at_most))
generate-cycles should_stop (suc most) first zero event_count r = elim r.stop [
  | inl e ↦ absurd (omega arith)
  | inr e ↦
      let here : should_stop first ≡ true = subst (λ j. should_stop j ≡ true) (omega arith) e in
      rw (generate, here)
]
generate-cycles should_stop (suc most) first (suc n) event_count r =
    let here = r.go_on first (omega arith) (omega arith) in
    let rest = generate-cycles should_stop most (first + 1) n first (Rounds-next r) in
    let last : (if n == 0 then first else first + 1 + n - 1) ≡ first + suc n - 1 = ground arith in
    let value : first + suc n - 1 ≡ (if suc n == 0 then event_count else first + suc n - 1) =
      ground arith in
    rw (generate, here, rest, last) (ap (λ k. (cycles first (suc n), k)) value)

-- On a chain of the three blocks, by falling priority, the thread prints whole cycles, numbered
-- from 1, each event by the callbacks in this order: ten cycles, or those before the first round
-- that finds the thread told to stop. The last number stays in `event_count`.
pub event_generator_fn-cycles :
    (should_stop : ℕ → Bool) (n event_count : ℕ)
    → Rounds should_stop 1 10 n
    → event_generator_fn should_stop three_nbs event_count
      ≡ (cycles 1 n, if n == 0 then event_count else n)
unfolding event_generator_fn
event_generator_fn-cycles should_stop n event_count r =
    let same : (if n == 0 then event_count else 1 + n - 1) ≡ (if n == 0 then event_count else n) =
      ground arith in
    generate-cycles should_stop 10 1 n event_count r ∙ ap (λ k. (cycles 1 n, k)) same
