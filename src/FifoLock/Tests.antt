-- ===== src/FifoLock/Tests.antt =====
-- Runs of the two locks of app/conversation/fifo_lock.py.
use manus_claw.Prelude.{ℕ, elem, refl, ◌≡◌, ◌≢◌, true, [], ◌⊎◌, inl}
use manus_claw.FifoLock.AsyncLock
use manus_claw.FifoLock.ThreadLock
use manus_claw.FifoLock.Exclusion.{
  async_mutual_exclusion, async_no_lost_waiter, cancelled_owner_leaks_lock,
}
use manus_claw.FifoLock.Wakeups.{waiter_not_forgotten, IsSignalled}
use manus_claw.FifoLock.Barging.{two_threads_inside, barge}

-- Task 1 is past `acquire`, and task 2 waits behind it.
abbrev two_tasks : AsyncLock.Loop
two_tasks = AsyncLock.enter 2 (AsyncLock.enter 1 AsyncLock.idle_loop)

two_tasks_reached : AsyncLock.Reach AsyncLock.idle_loop two_tasks
unfolding AsyncLock.enter
two_tasks_reached =
    AsyncLock.next (AsyncLock.next AsyncLock.here (AsyncLock.enter_step 1 refl))
      (AsyncLock.enter_step 2 refl)

two_apart : ◌≢◌ {A = ℕ} 1 2
two_apart e = cc

async_mutual_exclusion_example : two_tasks.place 2 ≢ AsyncLock.inside
async_mutual_exclusion_example =
    async_mutual_exclusion two_tasks 1 2 two_tasks_reached (unfold AsyncLock.enter in refl)
      two_apart

async_no_lost_waiter_example : (elem 2 two_tasks.lock.waiters ≡ true) × (two_tasks.lock.held ≡ true)
async_no_lost_waiter_example =
    async_no_lost_waiter two_tasks 2 two_tasks_reached (unfold AsyncLock.enter in refl)
      (unfold AsyncLock.enter in refl)

-- Task 1 has released the lock to task 2, which has not run since.
abbrev handed_over : AsyncLock.Loop
handed_over = AsyncLock.leave 1 two_tasks

handed_over_reached : AsyncLock.Reach AsyncLock.idle_loop handed_over
handed_over_reached =
    AsyncLock.next two_tasks_reached (AsyncLock.leave_step 1 (unfold AsyncLock.enter in refl))

cancelled_owner_leaks_lock_example :
    let t = AsyncLock.enter 3 (AsyncLock.abort 2 handed_over) in
    (t.lock.held ≡ true) × (t.place 3 ≢ AsyncLock.inside)
cancelled_owner_leaks_lock_example =
    cancelled_owner_leaks_lock handed_over (AsyncLock.enter 3 (AsyncLock.abort 2 handed_over)) 2 3
      handed_over_reached (unfold AsyncLock.enter AsyncLock.leave AsyncLock.abort in refl)
      (unfold AsyncLock.enter AsyncLock.leave AsyncLock.abort in refl)
      (AsyncLock.next AsyncLock.here
        (AsyncLock.enter_step 3 (unfold AsyncLock.enter AsyncLock.leave AsyncLock.abort in refl)))

abbrev two_threads : ThreadLock.Threads
two_threads = ThreadLock.enter 2 (ThreadLock.enter 1 ThreadLock.idle_threads)

two_threads_reached : ThreadLock.Reach ThreadLock.idle_threads two_threads
unfolding ThreadLock.enter
two_threads_reached =
    ThreadLock.next (ThreadLock.next ThreadLock.here (ThreadLock.enter_step 1 refl))
      (ThreadLock.enter_step 2 refl)

waiter_not_forgotten_example :
    (elem 2 two_threads.lock.waiters ≡ true)
    × ((two_threads.lock.held ≡ true) ⊎ ((j : ℕ) × IsSignalled two_threads j))
waiter_not_forgotten_example =
    waiter_not_forgotten two_threads 2 two_threads_reached (unfold ThreadLock.enter in inl refl)
      (unfold ThreadLock.enter in refl)

two_threads_inside_example :
    let t = barge 1 3 2 two_threads in
    ThreadLock.Reach two_threads t
    × (t.place 3 ≡ ThreadLock.inside)
    × (t.place 2 ≡ ThreadLock.inside)
    × ◌≢◌ {A = ℕ} 3 2
two_threads_inside_example =
    two_threads_inside two_threads 1 3 2 [] (unfold ThreadLock.enter in refl)
      (unfold ThreadLock.enter in refl) (unfold ThreadLock.enter in refl)
      (unfold ThreadLock.enter in refl) (unfold ThreadLock.enter in refl)
