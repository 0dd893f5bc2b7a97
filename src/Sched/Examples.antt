-- ===== src/Sched/Examples.antt =====
-- The scheduler at concrete task arrays.
use simple_rv64os.Base.{ℕ, ◌<◌, ◌≤◌, ◌≡◌, ◌≢◌, refl, ◌⊎◌, Option, none, some, arith}
use simple_rv64os.Base.Arrays.{put, put-other}
use simple_rv64os.Task.{Task}
use simple_rv64os.Sched.{
  nr_tasks, Slots, Sched, add_task, schedule, schedule_priority, choose, scan, consider, recharge,
  recharge_slot, switch_chosen, switch_to, tick, do_timer, get_satp,
}
use simple_rv64os.Sched.Slots.{add_task_lem}
use simple_rv64os.Sched.Ready.{IsReady, put-IsReady}
use simple_rv64os.Sched.Pick.{IsChosen, schedule_lem, schedule-endless}
use simple_rv64os.Sched.Timer.{OneTick, do_timer-OneTick}

abbrev task_of : ℕ → ℕ → ℕ → Task
task_of pid priority counter = record {
  state = 0;
  counter = counter;
  priority = priority;
  pid = pid;
  thread = record { ra = 0; sp = 0; s = λ i. 0; sepc = 0; sstatus = 0; sscratch = 0 };
  page_table = 0xffff_ffe0_0030_0000;
  vma_cnt = 0;
  vmas = λ i. record {
    vm_start = 0;
    vm_end = 0;
    vm_flags = 0;
    vm_content_offset_in_file = 0;
    vm_content_size_in_file = 0;
  };
}

abbrev no_tasks : Slots
no_tasks i = none

no_tasks-IsReady : IsReady no_tasks
no_tasks-IsReady = record {
  counter_max = λ i t at. absurd (cc at);
  priority_max = λ i t at. absurd (cc at);
  priority_min = λ i t lo at. absurd (cc at);
}

abbrev idle_only : Slots
idle_only = put no_tasks 0 (some (task_of 0 0 0))

idle_only-IsReady : IsReady idle_only
idle_only-IsReady =
    put-IsReady no_tasks 0 (task_of 0 0 0) no_tasks-IsReady (omega arith) (omega arith)
      (λ lo. absurd (omega arith))

-- idle and two tasks, the first of which has one tick left.
abbrev three_tasks : Slots
three_tasks = put (put idle_only 1 (some (task_of 1 3 1))) 2 (some (task_of 2 7 0))

three_tasks-IsReady : IsReady three_tasks
three_tasks-IsReady =
    put-IsReady _ 2 (task_of 2 7 0)
      (put-IsReady idle_only 1 (task_of 1 3 1) idle_only-IsReady (omega arith) (omega arith)
        (λ lo. omega arith))
      (omega arith) (omega arith) (λ lo. omega arith)

abbrev running : Sched
running = record { task = three_tasks; current = 1; satp = 0 }

first_at : three_tasks 1 ≡ some (task_of 1 3 1)
unfolding put
first_at = refl

current_after : Option Sched → ℕ
current_after none = 99
current_after (some s) = s.current

-- The first task's time ends; all are recharged and the second has most.
second_next : current_after (do_timer 2 running) ≡ 2
unfolding current_after do_timer tick schedule schedule_priority choose scan consider recharge
    recharge_slot switch_chosen switch_to put
second_next = refl

-- One round is not enough there.
one_round : current_after (do_timer 1 running) ≡ 99
unfolding current_after do_timer tick schedule schedule_priority choose scan consider recharge
    recharge_slot switch_chosen switch_to put
one_round = refl

do_timer-OneTick_example :
    (s' : Sched) × (do_timer 2 running ≡ some s')
    × IsReady s'.task
    × OneTick running (task_of 1 3 1) s'
do_timer-OneTick_example =
    do_timer-OneTick 0 1 (task_of 1 3 1) (task_of 1 3 1) running three_tasks-IsReady (omega arith)
      (omega arith) first_at first_at

schedule_lem_example :
    (s' : Sched) × (schedule 2 running ≡ some s')
    × IsChosen three_tasks s'.task s'.current
    × ((u : Task) × (s'.task s'.current ≡ some u) × (s'.satp ≡ get_satp u.page_table))
schedule_lem_example =
    schedule_lem 0 1 (task_of 1 3 1) running three_tasks-IsReady (omega arith) (omega arith)
      first_at

schedule-endless_example : schedule 5 (record { task = idle_only; current = 0; satp = 0 }) ≡ none
schedule-endless_example =
    schedule-endless 5 (record { task = idle_only; current = 0; satp = 0 })
      (λ j lo hi. put-other no_tasks 0 (some (task_of 0 0 0)) j (omega arith)) idle_only-IsReady

add_task_lem_example :
    ((i : ℕ) × (add_task three_tasks (task_of 3 1 0)
        ≡ (some i, put three_tasks i (some (task_of 3 1 0))))
      × (2 ≤ i)
      × (i < nr_tasks)
      × (three_tasks i ≡ none)
      × ((j : ℕ) → 2 ≤ j → j < i → three_tasks j ≢ none))
    ⊎ ((add_task three_tasks (task_of 3 1 0) ≡ (none, three_tasks))
        × ((j : ℕ) → 2 ≤ j → j < nr_tasks → three_tasks j ≢ none))
add_task_lem_example = add_task_lem three_tasks (task_of 3 1 0)
