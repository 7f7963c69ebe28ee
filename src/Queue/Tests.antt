-- ===== src/Queue/Tests.antt =====
-- An example for the queue (include/rscmng/data_sharing/safe_queue.hpp): a call that finds the queue
-- empty sleeps, a value wakes it, and it takes the value.
use application_aware_resour.Prelude.{ℕ, refl}
use application_aware_resour.Queue.{
  System, fresh, notified, enqueue, dequeue, Reach, here, next, enqueues, calls, tests,
}
use application_aware_resour.Queue.Order.{IsOrdered, fresh-IsOrdered}

abbrev sleeping : System ℕ
sleeping = dequeue fresh

abbrev woken : System ℕ
woken = enqueue 7 sleeping

run : Reach fresh (dequeue woken)
unfolding dequeue enqueue notified
run = next (next (next here (calls fresh refl)) (enqueues sleeping 7)) (tests woken refl)

fresh-IsOrdered_example : IsOrdered (dequeue woken)
fresh-IsOrdered_example = fresh-IsOrdered run
