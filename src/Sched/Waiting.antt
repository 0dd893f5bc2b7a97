-- ===== src/Sched/Waiting.antt =====
-- A sound state with three tasks, the second of which runs, as test data.
use simple_rv64os.Base.{ℕ, ◌≤◌, ◌≡◌, refl, none, some, arith, inl, inr}
use mathlib.Core.Path.{subst₂}
use simple_rv64os.Base.Arrays.{put}
use simple_rv64os.Sched.{Slots, Sched, get_satp}
use simple_rv64os.Sched.Ready.{put-cases}
use simple_rv64os.Sched.Sound.{IsTaskOf, IsArray, IsSound, put-IsArray}
use simple_rv64os.Task.{Task}

abbrev pub task_of : ℕ → ℕ → Task
task_of pid counter = record {
  state = 0;
  counter = counter;
  priority = 4;
  pid = pid;
  thread = record { ra = 0; sp = 0; s = λ i. 0; sepc = 0; sstatus = 0; sscratch = 0 };
  page_table = 0xffff_ffe0_0030_0000;
  vma_cnt = 0;
  vmas = λ i. record {
    vm_start = 0;
    vm_end = 0;
    vm_flags = 0;
    vm_content_offset_in_file = 0;
    vm_content_size_in_file = 0;
  };
}

task_of-IsTaskOf : (i counter : ℕ) → counter ≤ 20 → IsTaskOf i (task_of i counter)
task_of-IsTaskOf i counter few = record {
  pid = refl;
  counter_max = few;
  priority_max = omega arith;
  priority_min = λ lo. omega arith;
}

abbrev pub one_task : Slots
one_task = put (λ i. none) 1 (some (task_of 1 7))

one_task-IsArray : IsArray one_task
unfolding put
one_task-IsArray = record {
  each = λ i t at. elim (put-cases (λ j. none) 1 (task_of 1 7) i t at) [
    | inl (same, here) ↦ subst₂ (λ x y. IsTaskOf x y) here same (task_of-IsTaskOf 1 7 (omega arith))
    | inr e ↦ absurd (cc e)
  ];
  first = (task_of 1 7, refl);
}

abbrev pub waiting : Sched
waiting = record {
  task = put (put one_task 2 (some (task_of 2 5))) 3 (some (task_of 3 9));
  current = 2;
  satp = get_satp 0xffff_ffe0_0030_0000;
}

pub at_two_three : (waiting.task 2 ≡ some (task_of 2 5)) × (waiting.task 3 ≡ some (task_of 3 9))
unfolding put
at_two_three = (refl, refl)

pub waiting-IsSound : IsSound waiting
waiting-IsSound = record {
  slots =
      put-IsArray _ 3 (task_of 3 9)
        (put-IsArray one_task 2 (task_of 2 5) one_task-IsArray (task_of-IsTaskOf 2 5 (omega arith)))
        (task_of-IsTaskOf 3 9 (omega arith));
  below = omega arith;
  runs = (task_of 2 5, at_two_three.0, refl);
}
