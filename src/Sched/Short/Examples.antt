-- ===== src/Sched/Short/Examples.antt =====
-- schedule_short_first with three tasks.
use simple_rv64os.Base.{ℕ, ◌<◌, ◌≤◌, ◌≡◌, ◌≢◌, some, arith}
use simple_rv64os.Rand.{Rand}
use simple_rv64os.Sched.{nr_tasks, Sched, get_satp}
use simple_rv64os.Sched.Short.{schedule_short_first}
use simple_rv64os.Sched.Short.Least.{hung, schedule_short_first-least}
use simple_rv64os.Task.{Task}
use simple_rv64os.Sched.Waiting.{task_of, waiting, at_two_three, waiting-IsSound}

abbrev numbers : Rand
numbers = record { initialize = 1; r = λ i. i; t = 0 }

schedule_short_first-least_example :
    (s' : Sched) × (schedule_short_first 1 waiting numbers ≡ some (s', numbers))
    × (s'.task ≡ hung waiting (task_of 2 5))
    × (s'.current ≢ 2)
    × ((v : Task) × (hung waiting (task_of 2 5) s'.current ≡ some v)
        × (s'.satp ≡ get_satp v.page_table)
        × ((j : ℕ) (w : Task)
            → 1 ≤ j
            → j < nr_tasks
            → hung waiting (task_of 2 5) j ≡ some w
            → v.counter ≤ w.counter))
schedule_short_first-least_example =
    schedule_short_first-least 0 waiting numbers (task_of 2 5) (task_of 3 9) 3 waiting-IsSound
      at_two_three.0 (omega arith) (omega arith) (λ e. omega arith) at_two_three.1
