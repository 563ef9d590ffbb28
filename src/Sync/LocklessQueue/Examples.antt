-- ===== src/Sync/LocklessQueue/Examples.antt =====
-- A run in which one item is offered and taken.
use linux_kernel_prog.Prelude.{◌+◌, ◌≤◌, ◌≡◌, refl, true, [], ◌∷◌, length, codes}
use linux_kernel_prog.Sync.LocklessQueue.{
  Slot, first, second, item, System, loaded, producer_fn, consumer_fn,
}
use linux_kernel_prog.Sync.LocklessQueue.Traffic.{producer_turn, consumer_turn, Reach, start, later}
use linux_kernel_prog.Sync.LocklessQueue.Items.{from, made, total}
use linux_kernel_prog.Sync.LocklessQueue.Offered.{lockless-offered}

last_message : (item second 19).msg ≡ codes "P2-Item19"
unfolding item
last_message = refl

-- The second producer's first item goes through the queue to the first consumer.
abbrev one_taken : System
one_taken = consumer_fn true first (producer_fn true second loaded)

one_taken-offered : one_taken.offered ≡ item second 0 ∷ []
unfolding producer_fn consumer_fn
one_taken-offered = refl

one_taken-Reach : Reach loaded one_taken
unfolding producer_fn
one_taken-Reach =
    later (later start (producer_turn true second refl)) (consumer_turn true first refl)

lockless-offered_example :
    ((w : Slot) → (one_taken.producers w).i ≤ 20)
    × ((w : Slot) → from w one_taken.offered ≡ made w (one_taken.producers w).i)
    × (length one_taken.offered ≡ total (λ w. (one_taken.producers w).i))
    × (one_taken.taken + one_taken.dropped ≡ length one_taken.offered)
    × ((w : Slot) → (one_taken.consumers w).consumed_count ≤ 25)
lockless-offered_example = lockless-offered one_taken-Reach
