-- ===== src/Sync/Handoff/Unload.antt =====
-- The unload of the producer and the consumer can hang.
use linux_kernel_prog.Prelude.{ℕ, zero, suc, ◌≡◌, refl, ap, ◌∙◌, true, arith}
use mathlib.Core.Path.{subst}
use linux_kernel_prog.Sync.Handoff.{
  Gate, waiting, finished, System, started, Step, prod_wait, prod_signal, prod_check, cons_wait,
  cons_signal, cons_check, stop_producer, stop_consumer, Reach, start, later,
}
use linux_kernel_prog.Sync.Handoff.Rounds.{IsGate}

-- Between two rounds, after `n` of them.
abbrev pub between : (n prod_gate cons_gate : ℕ) → System
between n p c = record started { prod_gate = p; cons_gate = c; produced = n; consumed = n }

-- The unload waits for the consumer, which waits for a producer that has ended.
abbrev pub hanging : (n prod_gate cons_gate : ℕ) → System
hanging n p c = record {
  prod_gate = p;
  cons_gate = c;
  prod = finished;
  cons = waiting;
  stop_prod = true;
  stop_cons = true;
  produced = n;
  consumed = n;
}

module _ (gate : Gate) (g : IsGate gate) where
  reopened : gate.post (gate.take 1) ≡ 1
  reopened = ap gate.post g.closes ∙ g.opens

  reclosed : gate.take (gate.post 0) ≡ 0
  reclosed = ap gate.take g.opens ∙ g.closes

  -- A shape of states, at the gates behind a round.
  settle :
      (shape : ℕ → ℕ → System)
      → Reach gate started (shape (gate.post (gate.take 1)) (gate.take (gate.post 0)))
      → Reach gate started (shape 1 0)
  settle shape r =
      subst (λ p. Reach gate started (shape p 0)) reopened
        (subst (λ c. Reach gate started (shape (gate.post (gate.take 1)) c)) reclosed r)

  round : (n : ℕ) → Reach gate started (between n 1 0) → Reach gate started (between (suc n) 1 0)
  round n r =
      let r1 = later r (prod_wait refl (omega arith)) in
      let r2 = later r1 (prod_signal refl) in
      let r3 = later r2 (prod_check refl) in
      let r4 = later r3 (cons_wait refl (omega (arith, g.opens))) in
      let r5 = later r4 (cons_signal refl) in
      let r6 = later r5 (cons_check refl) in settle (between (suc n)) r6

  rounds : (n : ℕ) → Reach gate started (between n 1 0)
  rounds zero = start
  rounds (suc n) = round n (rounds n)

  -- The unload begins between two rounds; the producer ends behind its next signal, and the consumer
  -- takes that signal and waits again before it is told to stop.
  hang : (n : ℕ) → Reach gate started (hanging (suc n) 1 0)
  hang n =
      let r0 = later (rounds n) (stop_producer refl) in
      let r1 = later r0 (prod_wait refl (omega arith)) in
      let r2 = later r1 (prod_signal refl) in
      let r3 = later r2 (prod_check refl) in
      let r4 = later r3 (cons_wait refl (omega (arith, g.opens))) in
      let r5 = later r4 (cons_signal refl) in
      let r6 = later r5 (cons_check refl) in
      settle (hanging (suc n)) (later r6 (stop_consumer refl refl refl))

hanging-stuck : {gate : Gate} (n : ℕ) {t : System} → ¬ Step gate (hanging n 1 0) t
hanging-stuck n (prod_wait e o) = cc
hanging-stuck n (prod_signal e) = cc
hanging-stuck n (prod_check e) = cc
hanging-stuck n (cons_wait e o) = omega arith
hanging-stuck n (cons_signal e) = cc
hanging-stuck n (cons_check e) = cc
hanging-stuck n (stop_producer e) = cc
hanging-stuck n (stop_consumer a b e) = cc

-- After any number of rounds an unload can come to a state in which no thread can take a step, with
-- the producer ended, and the consumer, which the unload waits for, not ended.
pub handoff-hangs :
    (gate : Gate)
    → IsGate gate
    → (n : ℕ)
    → (s : System) × Reach gate started s
      × (s.consumed ≡ suc n)
      × (s.stop_cons ≡ true)
      × (s.prod ≡ finished)
      × (s.cons ≡ waiting)
      × ((t : System) → ¬ Step gate s t)
handoff-hangs gate g n =
    (hanging (suc n) 1 0, hang gate g n, refl, refl, refl, refl, λ t st. hanging-stuck (suc n) st)
