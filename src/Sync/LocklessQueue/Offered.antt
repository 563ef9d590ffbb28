-- ===== src/Sync/LocklessQueue/Offered.antt =====
-- What the threads of lockless_queue.c have done, whatever the queue has answered.
use linux_kernel_prog.Prelude.{
  ℕ, suc, ◌+◌, ◌≤◌, ◌<◌, ◌≡◌, refl, sym, ap, ◌∙◌, inl, inr, Bool, true, false, not, ◌&&◌, [], ◌∷◌,
  length, length-append, arith, ltb, Bool-cases,
}
use linux_kernel_prog.Sync.LocklessQueue.{
  Slot, first, second, put_at, item, DataItem, Producer, Consumer, System, loaded, produce,
  producer_fn, consume, consumer_fn, producer_place, consumer_place,
}
use linux_kernel_prog.Sync.LocklessQueue.Traffic.{
  Step, producer_turn, consumer_turn, stop_first, stop_next, Reach, start, later,
}
use linux_kernel_prog.Sync.LocklessQueue.Items.{
  from, made, total, by_producer-item, put_at-all, total-put_at, put_at-keeps,
}

pub record IsSound (s : System) : Type 0 where
  pub rounds : (w : Slot) → (s.producers w).i ≤ 20
  pub all_offered : length s.offered ≡ total (λ w. (s.producers w).i)
  pub by_producer : (w : Slot) → from w s.offered ≡ made w (s.producers w).i
  pub answered : s.taken + s.dropped ≡ length s.offered
  pub limited : (w : Slot) → (s.consumers w).consumed_count ≤ 25

loaded-IsSound : IsSound loaded
unfolding made
loaded-IsSound = record {
  rounds = λ w. omega arith;
  all_offered = refl;
  by_producer = λ w. refl;
  answered = refl;
  limited = λ w. omega arith;
}

produce-IsSound :
    (put : Bool) (w : Slot) (s : System)
    → IsSound s
    → (s.producers w).i < 20
    → IsSound (produce put w s)
unfolding produce
produce-IsSound put w s sound h =
    let x : DataItem = item w (s.producers w).i in
    let p : Producer = record (s.producers w) { i = suc (s.producers w).i } in
    record {
      rounds = put_at-all (λ p. p.i ≤ 20) w p s.producers (omega arith) sound.rounds;
      all_offered = omega (
        arith,
        sound.all_offered,
        length-append s.offered (x ∷ []),
        total-put_at (λ (p : Producer). p.i) w p s.producers,
      );
      by_producer = λ v. by_producer-item v w s.producers p s.offered h refl (sound.by_producer v);
      answered = ground (arith, sound.answered, length-append s.offered (x ∷ []));
      limited = sound.limited;
    }

producer_ends-IsSound :
    (w : Slot) (s : System)
    → IsSound s
    → let p : Producer = record (s.producers w) { exited = true } in
      IsSound (record s { producers = put_at w p s.producers })
producer_ends-IsSound w s sound =
    let p : Producer = record (s.producers w) { exited = true } in
    let same = put_at-keeps (λ (p : Producer). p.i) w p s.producers refl in
    record {
      rounds = λ v. omega (arith, same v, sound.rounds v);
      all_offered = omega (arith, sound.all_offered, same first, same second);
      by_producer = λ v. sound.by_producer v ∙ ap (made v) (sym (same v));
      answered = sound.answered;
      limited = sound.limited;
    }

producer_fn-IsSound :
    (put : Bool) (w : Slot) (s : System) → IsSound s → IsSound (producer_fn put w s)
unfolding producer_fn
producer_fn-IsSound put w s sound =
    elim (Bool-cases (ltb (s.producers w).i 20 && not (ltb (producer_place w) s.stops))) [
      | inl on ↦
          let room : (s.producers w).i < 20 = ground arith in
          rw (producer_fn, on) (produce-IsSound put w s sound room)
      | inr off ↦ rw (producer_fn, off) (producer_ends-IsSound w s sound)
    ]

-- Only the count of a consumer matters.
consumer-IsSound :
    (w : Slot) (c : Consumer) (s : System)
    → IsSound s
    → c.consumed_count ≤ 25
    → IsSound (record s { consumers = put_at w c s.consumers })
consumer-IsSound w c s sound few = record {
  rounds = sound.rounds;
  all_offered = sound.all_offered;
  by_producer = sound.by_producer;
  answered = sound.answered;
  limited = put_at-all (λ c. c.consumed_count ≤ 25) w c s.consumers few sound.limited;
}

consume-IsSound :
    (got : Bool) (w : Slot) (s : System)
    → IsSound s
    → (s.consumers w).consumed_count < 25
    → IsSound (consume got w s)
unfolding consume
consume-IsSound true w s sound few = consumer-IsSound w _ s sound (omega arith)
consume-IsSound false w s sound few = sound

consumer_fn-IsSound :
    (got : Bool) (w : Slot) (s : System) → IsSound s → IsSound (consumer_fn got w s)
unfolding consumer_fn
consumer_fn-IsSound got w s sound =
    elim (Bool-cases
      (not (ltb (consumer_place w) s.stops) && ltb (s.consumers w).consumed_count 25)) [
        | inl on ↦
            let room : (s.consumers w).consumed_count < 25 = ground arith in
            rw (consumer_fn, on) (consume-IsSound got w s sound room)
        | inr off ↦ rw (consumer_fn, off) (consumer-IsSound w _ s sound (sound.limited w))
      ]

stopping-IsSound : (s : System) (n : ℕ) → IsSound s → IsSound (record s { stops = n })
stopping-IsSound s n sound = record {
  rounds = sound.rounds;
  all_offered = sound.all_offered;
  by_producer = sound.by_producer;
  answered = sound.answered;
  limited = sound.limited;
}

Step-IsSound : {s t : System} → IsSound s → Step s t → IsSound t
Step-IsSound {s} sound (producer_turn put w live) = producer_fn-IsSound put w s sound
Step-IsSound {s} sound (consumer_turn got w live) = consumer_fn-IsSound got w s sound
Step-IsSound {s} sound (stop_first e) = stopping-IsSound s _ sound
Step-IsSound {s} sound (stop_next e h d) = stopping-IsSound s _ sound

Reach-IsSound : {s : System} → Reach loaded s → IsSound s
Reach-IsSound start = loaded-IsSound
Reach-IsSound (later r step) = Step-IsSound (Reach-IsSound r) step

-- Wherever the threads of lockless_queue.c and its unload have come to, and whatever the queue has
-- answered them: each producer has been through at most 20 rounds and has offered the items of these
-- rounds, each once and in their order, and nothing else was offered; each item was taken or dropped;
-- and each consumer has received at most 25.
pub lockless-offered :
    {s : System}
    → Reach loaded s
    → ((w : Slot) → (s.producers w).i ≤ 20)
      × ((w : Slot) → from w s.offered ≡ made w (s.producers w).i)
      × (length s.offered ≡ total (λ w. (s.producers w).i))
      × (s.taken + s.dropped ≡ length s.offered)
      × ((w : Slot) → (s.consumers w).consumed_count ≤ 25)
lockless-offered r =
    let sound = Reach-IsSound r in
    (sound.rounds, sound.by_producer, sound.all_offered, sound.answered, sound.limited)
