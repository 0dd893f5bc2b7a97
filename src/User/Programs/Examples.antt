-- ===== src/User/Programs/Examples.antt =====
-- The user programs with two lines of their last loop.
use simple_rv64os.Base.{◌%◌, ◌^◌, ◌≡◌, [], ◌∷◌, arith, ◌==◌, if◌then◌else◌}
use simple_rv64os.User.Programs.{
  main, main1, main2, main3, running, in_child, in_parent, before_fork, with_pid,
}
use simple_rv64os.User.Programs.Lines.{line, line_twice, lines, counted, lines-programs}

-- The first fork makes the child 2, the second is made by it and returns to it.
lines-programs_example :
    (lines 1 ((0, 2) ∷ (2, 2) ∷ []) (main 2)
      ≡ line_twice with_pid 1 0 ∷ line_twice with_pid 2 1 ∷ counted (line_twice with_pid 2) 2 2)
    × (lines 1 ((0, 2) ∷ []) (main3 2)
        ≡ line before_fork 1 0
          ∷ line before_fork 1 1
          ∷ line before_fork 1 2
          ∷ counted (line (if 0 % 2 ^ 32 == 0 then in_child else in_parent) 2) 3 2)
    × (lines 1 ((0, 2) ∷ []) (main2 2 0)
        ≡ counted (line (if 0 % 2 ^ 32 == 0 then in_child else in_parent) 2) 0 2)
    × (lines 1 ((0, 2) ∷ []) (main1 2 0) ≡ counted (line running 2) 0 2)
lines-programs_example = lines-programs 1 2 2 0 2 2 (omega arith)
