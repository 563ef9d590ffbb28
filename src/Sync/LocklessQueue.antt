-- ===== src/Sync/LocklessQueue.antt =====
-- sync/part3/lockless_queue.c: two producers and two consumers on a kfifo, and the unload. The threads
-- use the kfifo without a lock, which it allows for one of each only, so nothing is taken for granted
-- of it: what a call returns is an argument.
pub mod Traffic
pub mod Items
pub mod Offered
pub mod Unload
mod Examples
use linux_kernel_prog.Prelude.{
  ℕ, zero, suc, ◌+◌, ◌*◌, ◌/◌, ◌%◌, ◌<◌, ◌≤◌, ◌≡◌, Bool, true, false, not, ◌&&◌, Option, none, some,
  List, [], ◌∷◌, ◌++◌, length, take, codes, ltb, if◌then◌else◌,
}

pub record DataItem : Type 0 where
  pub id : ℕ
  pub value : ℕ
  pub msg : List ℕ

-- The index of a producer or of a consumer.
pub data Slot : Type 0 where
  first : Slot
  second : Slot

abbrev pub put_at {ℓ} : {A : Type ℓ} → Slot → A → (Slot → A) → Slot → A
put_at first a f first = a
put_at first a f second = f second
put_at second a f first = f first
put_at second a f second = a

-- `producer_ids` and `consumer_ids`.
abbrev pub id_of : Slot → ℕ
id_of first = 1
id_of second = 2

-- A `%d` of a number below 100, as all are here.
abbrev pub digits : ℕ → List ℕ
digits n = if ltb n 10 then (48 + n) ∷ [] else (48 + n / 10) ∷ (48 + n % 10) ∷ []

-- The item that a producer makes in a round.
unfoldable pub item : Slot → ℕ → DataItem
item w i = record {
  id = id_of w * 1000 + i;
  value = i * id_of w;
  msg = take 31 (codes "P" ++ (digits (id_of w) ++ (codes "-Item" ++ digits i)));
}

pub record Producer : Type 0 where
  pub i : ℕ
  pub exited : Bool

pub record Consumer : Type 0 where
  pub consumed_count : ℕ
  pub exited : Bool

-- The threads, how many of them the unload has asked to stop, the items that the producers have
-- offered to the queue, in the order of the calls, and how many of them it has taken and refused.
pub record System : Type 0 where
  pub producers : Slot → Producer
  pub consumers : Slot → Consumer
  pub stops : ℕ
  pub offered : List DataItem
  pub taken : ℕ
  pub dropped : ℕ

-- `lockless_queue_init` with all threads created.
abbrev pub loaded : System
loaded = record {
  producers = λ w. record { i = 0; exited = false };
  consumers = λ w. record { consumed_count = 0; exited = false };
  stops = 0;
  offered = [];
  taken = 0;
  dropped = 0;
}

-- The place of a thread in the order in which the unload stops them.
abbrev pub producer_place : Slot → ℕ
producer_place first = 0
producer_place second = 1

abbrev pub consumer_place : Slot → ℕ
consumer_place first = 2
consumer_place second = 3

-- The body of a producer's loop, by what `kfifo_put` returns: the queue drops the item, or has it.
unfoldable pub produce : (put : Bool) → Slot → System → System
unfolding item
produce put w s =
    let p : Producer = s.producers w in
    record s {
      producers = put_at w (record p { i = suc p.i }) s.producers;
      offered = s.offered ++ item w p.i ∷ [];
      taken = if put then suc s.taken else s.taken;
      dropped = if put then s.dropped else suc s.dropped;
    }

-- A round of `producer_fn`: the test of its loop, and the body or the end.
unfoldable pub producer_fn : (put : Bool) → Slot → System → System
unfolding produce
producer_fn put w s =
    let p : Producer = s.producers w in
    let goes_on : Bool = ltb p.i 20 && not (ltb (producer_place w) s.stops) in
    if goes_on
    then produce put w s
    else record s { producers = put_at w (record p { exited = true }) s.producers }

-- The body of a consumer's loop, by whether `kfifo_get` returns an item.
unfoldable pub consume : (got : Bool) → Slot → System → System
consume got w s =
    let c : Consumer = s.consumers w in
    if got
    then record s {
      consumers = put_at w (record c { consumed_count = suc c.consumed_count }) s.consumers;
    }
    else s

-- A round of `consumer_fn`.
unfoldable pub consumer_fn : (got : Bool) → Slot → System → System
unfolding consume
consumer_fn got w s =
    let c : Consumer = s.consumers w in
    let goes_on : Bool = not (ltb (consumer_place w) s.stops) && ltb c.consumed_count 25 in
    if goes_on
    then consume got w s
    else record s { consumers = put_at w (record c { exited = true }) s.consumers }
