-- ===== src/User/Programs/Lines.antt =====
-- What the processes of the user programs print.
use simple_rv64os.Base.{
  ℕ, zero, suc, ◌+◌, ◌%◌, ◌^◌, ◌<◌, ◌≡◌, refl, ap, Bool, true, false, List, [], ◌∷◌, arith, ◌==◌,
  if◌then◌else◌,
}
use simple_rv64os.Printk.{Arg, word}
use simple_rv64os.User.Programs.{
  Program, ecall, print, wait, cut, user_sys_getpid, getpid, fork, say, say_twice, forever,
  forever_twice, running, in_child, in_parent, before_fork, with_pid, main1, after_fork, main2,
  main3, main,
}

-- A call of printf: the format and what follows it.
abbrev pub Line : Type 0
Line = List ℕ × List Arg

-- The lines that end in one process of a program: those before a fork are its forebear's, of pid `pid`,
-- and each fork gives a result and the pid that the process has from there on.
unfoldable pub lines : ℕ → List (ℕ × ℕ) → Program → List Line
lines pid forks (ecall number next) =
    if number == user_sys_getpid then lines pid forks (next pid) else elim forks [
      | [] ↦ lines pid [] (next 0)
      | (result, pid') ∷ rest ↦ lines pid' rest (next result)
    ]
lines pid forks (print fmt args next) = (fmt, args) ∷ lines pid forks next
lines pid forks (wait n next) = lines pid forks next
lines pid forks cut = []

abbrev pub line : List ℕ → ℕ → ℕ → Line
line fmt pid global = (fmt, word pid ∷ word global ∷ [])

abbrev pub line_twice : List ℕ → ℕ → ℕ → Line
line_twice fmt pid global = (fmt, word pid ∷ word pid ∷ word global ∷ [])

-- n lines, which count from `global`.
unfoldable pub counted : (ℕ → Line) → ℕ → ℕ → List Line
counted of global zero = []
counted of global (suc n) = of global ∷ counted of (global + 1) n

lines-forever :
    (pid : ℕ) (forks : List (ℕ × ℕ)) (fmt : List ℕ) (n global : ℕ)
    → global + n < 2 ^ 32
    → lines pid forks (forever n fmt global) ≡ counted (line fmt pid) global n
unfolding lines forever say getpid counted
lines-forever pid forks fmt zero global lt = refl
lines-forever pid forks fmt (suc n) global lt =
    let next : (global + 1) % 2 ^ 32 ≡ global + 1 = omega arith in
    rw next
      (ap (λ l. line fmt pid global ∷ l) (lines-forever pid forks fmt n (global + 1) (omega arith)))

lines-forever_twice :
    (pid : ℕ) (forks : List (ℕ × ℕ)) (fmt : List ℕ) (n global : ℕ)
    → global + n < 2 ^ 32
    → lines pid forks (forever_twice n fmt global) ≡ counted (line_twice fmt pid) global n
unfolding lines forever_twice say_twice getpid counted
lines-forever_twice pid forks fmt zero global lt = refl
lines-forever_twice pid forks fmt (suc n) global lt =
    let next : (global + 1) % 2 ^ 32 ≡ global + 1 = omega arith in
    rw next (
      ap (λ l. line_twice fmt pid global ∷ l)
        (lines-forever_twice pid forks fmt n (global + 1) (omega arith)))

lines-after_fork :
    (pid : ℕ) (n global result : ℕ)
    → global + n < 2 ^ 32
    → lines pid [] (after_fork n global result)
      ≡ counted (line (if result % 2 ^ 32 == 0 then in_child else in_parent) pid) global n
unfolding after_fork
lines-after_fork pid n global result lt = go (result % 2 ^ 32 == 0)
  where
    go :
        (b : Bool)
        → lines pid [] (if b then forever n in_child global else forever n in_parent global)
          ≡ counted (line (if b then in_child else in_parent) pid) global n
    go true = lines-forever pid [] in_child n global lt
    go false = lines-forever pid [] in_parent n global lt

-- The lines of any process of the four programs number on from 0 without a gap, those of its forebears
-- before the forks among them, as long as the count fits an `int`: main prints one line before each of
-- its two forks and then goes on; main3 prints three before its fork, and it and main2 go on as the child
-- where the fork returns 0 and else as the parent; main1 goes on alike in both.
pub lines-programs :
    (p q r a b n : ℕ)
    → n + 3 < 2 ^ 32
    → (lines p ((a, q) ∷ (b, r) ∷ []) (main n)
        ≡ line_twice with_pid p 0 ∷ line_twice with_pid q 1 ∷ counted (line_twice with_pid r) 2 n)
      × (lines p ((a, q) ∷ []) (main3 n)
          ≡ line before_fork p 0
            ∷ line before_fork p 1
            ∷ line before_fork p 2
            ∷ counted (line (if a % 2 ^ 32 == 0 then in_child else in_parent) q) 3 n)
      × (lines p ((a, q) ∷ []) (main2 n 0)
          ≡ counted (line (if a % 2 ^ 32 == 0 then in_child else in_parent) q) 0 n)
      × (lines p ((a, q) ∷ []) (main1 n 0) ≡ counted (line running q) 0 n)
unfolding lines main main1 main2 main3 say say_twice getpid fork
lines-programs p q r a b n lt = (
  ap (λ l. line_twice with_pid p 0 ∷ line_twice with_pid q 1 ∷ l)
      (lines-forever_twice r [] with_pid n 2 (omega arith)),
  ap (λ l. line before_fork p 0 ∷ line before_fork p 1 ∷ line before_fork p 2 ∷ l)
      (lines-after_fork q n 3 a (omega arith)),
  lines-after_fork q n 0 a (omega arith),
  lines-forever q [] running n 0 (omega arith),
)
