-- ===== src/User/Programs.antt =====
-- The programs of user/getpid.c, of which `main` is the one that runs. A program is what it asks of the
-- kernel, by the number of the system call in a7, and what it prints through printf; loops without an
-- end are cut off after a number of rounds. The numbers are those of user/syscall.h.
pub mod Lines
mod Examples
use simple_rv64os.Base.{ℕ, zero, suc, ◌+◌, ◌*◌, ◌%◌, ◌^◌, List, [], ◌∷◌, ltb, ◌==◌, if◌then◌else◌}
use simple_rv64os.Printk.{Arg, word}

pub data Program : Type 0 where
  ecall : ℕ → (ℕ → Program) → Program
  print : List ℕ → List Arg → Program → Program
  wait : ℕ → Program → Program
  cut : Program

-- Printing goes through it; a program here only says what it prints.
abbrev user_sys_write : ℕ
user_sys_write = 64

abbrev pub user_sys_getpid : ℕ
user_sys_getpid = 172

abbrev pub user_sys_clone : ℕ
user_sys_clone = 220

-- What follows the call gets its result.
unfoldable pub getpid : (ℕ → Program) → Program
getpid next = ecall user_sys_getpid next

unfoldable pub fork : (ℕ → Program) → Program
fork next = ecall user_sys_clone next

abbrev pub k : ℕ
k = 3

-- What global_variable starts with.
abbrev pub global_variable : ℕ
global_variable = 0

-- for (unsigned int i = 0; i < 0x7FFFFFF * K; i++), which ends with i at the bound.
abbrev pub rounds_of_wait : ℕ
rounds_of_wait = 0x7FF_FFFF * k

-- global_variable++
abbrev pub increment : ℕ → ℕ
increment global = (global + 1) % 2 ^ 32

-- printf(fmt, getpid(), global_variable++)
unfoldable pub say : List ℕ → ℕ → (ℕ → Program) → Program
unfolding getpid
say fmt global next =
    getpid (λ pid. print fmt (word pid ∷ word global ∷ []) (next (increment global)))

-- printf(fmt, getpid(), getpid(), global_variable++)
unfoldable pub say_twice : List ℕ → ℕ → (ℕ → Program) → Program
unfolding getpid
say_twice fmt global next = getpid (λ first.
    getpid (λ pid. print fmt (word first ∷ word pid ∷ word global ∷ []) (next (increment global))))

-- The loop without an end around `say`, cut off.
unfoldable pub forever : ℕ → List ℕ → ℕ → Program
unfolding say
forever zero fmt global = cut
forever (suc n) fmt global = say fmt global (λ global'. wait rounds_of_wait (forever n fmt global'))

unfoldable pub forever_twice : ℕ → List ℕ → ℕ → Program
unfolding say_twice
forever_twice zero fmt global = cut
forever_twice (suc n) fmt global =
    say_twice fmt global (λ global'. wait rounds_of_wait (forever_twice n fmt global'))

-- [PID = %d] is running, variable: %d\n
abbrev pub running : List ℕ
running =
    91 ∷ 80 ∷ 73 ∷ 68 ∷ 32 ∷ 61 ∷ 32 ∷ 37 ∷ 100 ∷ 93 ∷ 32 ∷ 105 ∷ 115 ∷ 32 ∷ 114 ∷ 117 ∷ 110 ∷ 110
    ∷ 105 ∷ 110 ∷ 103 ∷ 44 ∷ 32 ∷ 118 ∷ 97 ∷ 114 ∷ 105 ∷ 97 ∷ 98 ∷ 108 ∷ 101 ∷ 58 ∷ 32 ∷ 37 ∷ 100
    ∷ 10 ∷ []

-- [U-CHILD] pid: %ld is running!, global_variable: %d\n
abbrev pub in_child : List ℕ
in_child =
    91 ∷ 85 ∷ 45 ∷ 67 ∷ 72 ∷ 73 ∷ 76 ∷ 68 ∷ 93 ∷ 32 ∷ 112 ∷ 105 ∷ 100 ∷ 58 ∷ 32 ∷ 37 ∷ 108 ∷ 100
    ∷ 32 ∷ 105 ∷ 115 ∷ 32 ∷ 114 ∷ 117 ∷ 110 ∷ 110 ∷ 105 ∷ 110 ∷ 103 ∷ 33 ∷ 44 ∷ 32 ∷ 103 ∷ 108 ∷ 111
    ∷ 98 ∷ 97 ∷ 108 ∷ 95 ∷ 118 ∷ 97 ∷ 114 ∷ 105 ∷ 97 ∷ 98 ∷ 108 ∷ 101 ∷ 58 ∷ 32 ∷ 37 ∷ 100 ∷ 10 ∷ []

-- [U-PARENT] pid: %ld is running!, global_variable: %d\n
abbrev pub in_parent : List ℕ
in_parent =
    91 ∷ 85 ∷ 45 ∷ 80 ∷ 65 ∷ 82 ∷ 69 ∷ 78 ∷ 84 ∷ 93 ∷ 32 ∷ 112 ∷ 105 ∷ 100 ∷ 58 ∷ 32 ∷ 37 ∷ 108
    ∷ 100 ∷ 32 ∷ 105 ∷ 115 ∷ 32 ∷ 114 ∷ 117 ∷ 110 ∷ 110 ∷ 105 ∷ 110 ∷ 103 ∷ 33 ∷ 44 ∷ 32 ∷ 103 ∷ 108
    ∷ 111 ∷ 98 ∷ 97 ∷ 108 ∷ 95 ∷ 118 ∷ 97 ∷ 114 ∷ 105 ∷ 97 ∷ 98 ∷ 108 ∷ 101 ∷ 58 ∷ 32 ∷ 37 ∷ 100
    ∷ 10 ∷ []

-- [U] pid: %ld is running!, global_variable: %d\n
abbrev pub before_fork : List ℕ
before_fork =
    91 ∷ 85 ∷ 93 ∷ 32 ∷ 112 ∷ 105 ∷ 100 ∷ 58 ∷ 32 ∷ 37 ∷ 108 ∷ 100 ∷ 32 ∷ 105 ∷ 115 ∷ 32 ∷ 114 ∷ 117
    ∷ 110 ∷ 110 ∷ 105 ∷ 110 ∷ 103 ∷ 33 ∷ 44 ∷ 32 ∷ 103 ∷ 108 ∷ 111 ∷ 98 ∷ 97 ∷ 108 ∷ 95 ∷ 118 ∷ 97
    ∷ 114 ∷ 105 ∷ 97 ∷ 98 ∷ 108 ∷ 101 ∷ 58 ∷ 32 ∷ 37 ∷ 100 ∷ 10 ∷ []

-- [U%ld] pid: %ld is running!, global_variable: %d\n
abbrev pub with_pid : List ℕ
with_pid =
    91 ∷ 85 ∷ 37 ∷ 108 ∷ 100 ∷ 93 ∷ 32 ∷ 112 ∷ 105 ∷ 100 ∷ 58 ∷ 32 ∷ 37 ∷ 108 ∷ 100 ∷ 32 ∷ 105 ∷ 115
    ∷ 32 ∷ 114 ∷ 117 ∷ 110 ∷ 110 ∷ 105 ∷ 110 ∷ 103 ∷ 33 ∷ 44 ∷ 32 ∷ 103 ∷ 108 ∷ 111 ∷ 98 ∷ 97 ∷ 108
    ∷ 95 ∷ 118 ∷ 97 ∷ 114 ∷ 105 ∷ 97 ∷ 98 ∷ 108 ∷ 101 ∷ 58 ∷ 32 ∷ 37 ∷ 100 ∷ 10 ∷ []

unfoldable pub main1 : ℕ → ℕ → Program
unfolding fork forever
main1 n global = fork (λ pid. forever n running global)

-- if (pid == 0), for a pid cut down to an `int`.
unfoldable pub after_fork : ℕ → ℕ → ℕ → Program
unfolding forever
after_fork n global pid =
    if pid % 2 ^ 32 == 0 then forever n in_child global else forever n in_parent global

unfoldable pub main2 : ℕ → ℕ → Program
unfolding fork after_fork
main2 n global = fork (λ pid. after_fork n global pid)

unfoldable pub main3 : ℕ → Program
unfolding say fork after_fork
main3 n = say before_fork 0 (λ first.
    say before_fork first
      (λ second. say before_fork second (λ third. fork (λ pid. after_fork n third pid))))

unfoldable pub main : ℕ → Program
unfolding say_twice fork forever_twice
main n = say_twice with_pid 0 (λ first.
    fork
      (λ pid. say_twice with_pid first (λ second. fork (λ pid'. forever_twice n with_pid second))))
