-- ===== src/Defs/Numbers.antt =====
-- The register numbers, trap causes, status bits and counter settings of arch/riscv/include/defs.h,
-- the system call numbers of arch/riscv/include/syscall.h and those of user/syscall.h.
use simple_rv64os.Base.{ℕ, ◌^◌}

abbrev pub n_regs : ℕ
n_regs = 32

abbrev pub r_zero : ℕ
r_zero = 0

abbrev pub r_ra : ℕ
r_ra = 1

abbrev pub r_sp : ℕ
r_sp = 2

abbrev pub r_gp : ℕ
r_gp = 3

abbrev pub r_tp : ℕ
r_tp = 4

abbrev pub r_t0 : ℕ
r_t0 = 5

abbrev pub r_t1 : ℕ
r_t1 = 6

abbrev pub r_t2 : ℕ
r_t2 = 7

abbrev pub r_fp : ℕ
r_fp = 8

abbrev pub r_s1 : ℕ
r_s1 = 9

abbrev pub r_a0 : ℕ
r_a0 = 10

abbrev pub r_a1 : ℕ
r_a1 = 11

abbrev pub r_a2 : ℕ
r_a2 = 12

abbrev pub r_a3 : ℕ
r_a3 = 13

abbrev pub r_a4 : ℕ
r_a4 = 14

abbrev pub r_a5 : ℕ
r_a5 = 15

abbrev pub r_a6 : ℕ
r_a6 = 16

abbrev pub r_a7 : ℕ
r_a7 = 17

abbrev pub r_s2 : ℕ
r_s2 = 18

abbrev pub r_s3 : ℕ
r_s3 = 19

abbrev pub r_s4 : ℕ
r_s4 = 20

abbrev pub r_s5 : ℕ
r_s5 = 21

abbrev pub r_s6 : ℕ
r_s6 = 22

abbrev pub r_s7 : ℕ
r_s7 = 23

abbrev pub r_s8 : ℕ
r_s8 = 24

abbrev pub r_s9 : ℕ
r_s9 = 25

abbrev pub r_s10 : ℕ
r_s10 = 26

abbrev pub r_s11 : ℕ
r_s11 = 27

abbrev pub r_t3 : ℕ
r_t3 = 28

abbrev pub r_t4 : ℕ
r_t4 = 29

abbrev pub r_t5 : ℕ
r_t5 = 30

abbrev pub r_t6 : ℕ
r_t6 = 31

abbrev pub timer_intr : ℕ
timer_intr = 0x8000_0000_0000_0005

abbrev pub inst_page_fault : ℕ
inst_page_fault = 0x0c

abbrev pub load_page_fault : ℕ
load_page_fault = 0x0d

abbrev pub store_page_fault : ℕ
store_page_fault = 0x0f

abbrev pub ecall_from_u_mode : ℕ
ecall_from_u_mode = 0x08

abbrev pub max_time : ℕ
max_time = 10

abbrev pub priority_max : ℕ
priority_max = 10

abbrev pub priority_min : ℕ
priority_min = 1

abbrev pub task_running : ℕ
task_running = 0

abbrev pub default_counter : ℕ
default_counter = 0

abbrev pub sstatus_spp : ℕ
sstatus_spp = 2 ^ 8

abbrev pub sstatus_spie : ℕ
sstatus_spie = 2 ^ 5

abbrev pub sstatus_sum : ℕ
sstatus_sum = 2 ^ 18

abbrev pub stdout : ℕ
stdout = 1

abbrev pub user_start : ℕ
user_start = 0

abbrev pub sys_write_id : ℕ
sys_write_id = 64

abbrev pub sys_getpid_id : ℕ
sys_getpid_id = 172

abbrev pub sys_clone_id : ℕ
sys_clone_id = 220

-- The last argument of map_final_pgtbl, which no code reads, is the `true` of defs.h.
abbrev c_true : ℕ
c_true = 1

abbrev c_false : ℕ
c_false = 0

abbrev sys_munmap_id : ℕ
sys_munmap_id = 215

abbrev sys_mmap_id : ℕ
sys_mmap_id = 222

abbrev sys_mprotect_id : ℕ
sys_mprotect_id = 226
