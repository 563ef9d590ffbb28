-- ===== src/Sync/Handoff/Rounds.antt =====
-- The producer and the consumer take turns.
use linux_kernel_prog.Prelude.{ℕ, ◌+◌, ◌≤◌, ◌≡◌, refl, Bool, true, false, arith}
use linux_kernel_prog.Sync.Handoff.{
  Gate, Pc, waiting, working, checking, finished, System, started, after_check, Step, prod_wait,
  prod_signal, prod_check, cons_wait, cons_signal, cons_check, stop_producer, stop_consumer, Reach,
  start, later,
}

abbrev pub works : Pc → ℕ
works waiting = 0
works working = 1
works checking = 0
works finished = 0

-- What the code relies on: a gate opens by one signal and closes behind one thread.
pub record IsGate (gate : Gate) : Type 0 where
  pub closes : gate.take 1 ≡ 0
  pub opens : gate.post 0 ≡ 1

-- There is one turn, at a gate or with a thread.
pub record IsFair (s : System) : Type 0 where
  pub turn : s.prod_gate + s.cons_gate + works s.prod + works s.cons ≡ 1
  pub counted : s.produced ≡ s.consumed + s.cons_gate + works s.cons

works-after_check : (b : Bool) → works (after_check b) ≡ 0
works-after_check true = refl
works-after_check false = refl

Step-IsFair : {gate : Gate} {s t : System} → IsGate gate → Step gate s t → IsFair s → IsFair t
Step-IsFair g (prod_wait at open_) h = record {
  turn = ground (arith, g.closes, h.turn);
  counted = h.counted;
}
Step-IsFair g (prod_signal at) h = record {
  turn = ground (arith, g.opens, h.turn);
  counted = ground (arith, g.opens, h.turn, h.counted);
}
Step-IsFair {s = s} g (prod_check at) h = record {
  turn = ground (arith, works-after_check s.stop_prod, h.turn);
  counted = h.counted;
}
Step-IsFair g (cons_wait at open_) h = record {
  turn = ground (arith, g.closes, h.turn);
  counted = ground (arith, g.closes, h.turn, h.counted);
}
Step-IsFair g (cons_signal at) h = record {
  turn = ground (arith, g.opens, h.turn);
  counted = ground (arith, h.turn, h.counted);
}
Step-IsFair {s = s} g (cons_check at) h = record {
  turn = ground (arith, works-after_check s.stop_cons, h.turn);
  counted = ground (arith, works-after_check s.stop_cons, h.counted);
}
Step-IsFair g (stop_producer a) h = record { turn = h.turn; counted = h.counted }
Step-IsFair g (stop_consumer a b c) h = record { turn = h.turn; counted = h.counted }

Reach-IsFair : {gate : Gate} {s : System} → IsGate gate → Reach gate started s → IsFair s
Reach-IsFair g start = record { turn = refl; counted = refl }
Reach-IsFair g (later r st) = Step-IsFair g st (Reach-IsFair g r)

-- In every interleaving, at a gate that one signal opens and one thread closes: the producer and the
-- consumer never work at the same time, and the consumer has consumed all that was produced or all
-- but the last.
pub handoff-alternates :
    (gate : Gate) {s : System}
    → IsGate gate
    → Reach gate started s
    → (works s.prod + works s.cons ≤ 1) × (s.consumed ≤ s.produced) × (s.produced ≤ s.consumed + 1)
handoff-alternates gate g r =
    let h = Reach-IsFair g r in
    (omega (arith, h.turn), omega (arith, h.counted), omega (arith, h.turn, h.counted))
