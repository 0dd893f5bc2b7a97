-- ===== src/Elf/Examples.antt =====
-- A file of a note and one loadable segment, as bytes in memory.
use simple_rv64os.Base.{ℕ, ◌+◌, ◌*◌, ◌≡◌, refl}
use simple_rv64os.Base.Arrays.{put}
use simple_rv64os.Bytes.{Bytes, load_bytes, store_bytes, load64}
use simple_rv64os.Elf.{
  ei_mag0, elfmag0, ei_mag1, elfmag1, ei_mag2, elfmag2, ei_mag3, elfmag3, ei_class, elfclass64,
  ei_data, elfdata2lsb, ei_version, ev_current, et_exec, em_riscv, pt_note, pt_gnu_stack, at_type,
  at_machine, at_version, at_entry, at_phoff, at_ehsize, at_phentsize, at_phnum, phdr_size,
  read_ehdr, read_phdr, phdr_at, load_file,
}
use simple_rv64os.Task.{Task, load_program, pt_load}

-- e_ident, at the start of the file.
ident : Bytes → ℕ → Bytes
ident m a =
    let magic = put (put m (a + ei_mag0) elfmag0) (a + ei_mag1) elfmag1 in
    let named = put (put magic (a + ei_mag2) elfmag2) (a + ei_mag3) elfmag3 in
    let wide = put (put named (a + ei_class) elfclass64) (a + ei_data) elfdata2lsb in
    put wide (a + ei_version) ev_current

-- The header, with three program headers of which the last is loadable.
header : Bytes → ℕ → Bytes
header m a =
    let kind = store_bytes 2 (store_bytes 2 m (a + at_type) et_exec) (a + at_machine) em_riscv in
    let entry = store_bytes 8 (store_bytes 4 kind (a + at_version) 1) (a + at_entry) 0x100e8 in
    let sizes = store_bytes 2 (store_bytes 8 entry (a + at_phoff) 64) (a + at_ehsize) 64 in
    store_bytes 2 (store_bytes 2 sizes (a + at_phentsize) phdr_size) (a + at_phnum) 3

segment : Bytes → ℕ → Bytes
segment m a =
    let kind = store_bytes 4 (store_bytes 4 m a pt_load) (a + 4) 5 in
    let place = store_bytes 8 (store_bytes 8 kind (a + 8) 0xe8) (a + 16) 0x100e8 in
    store_bytes 8 (store_bytes 8 place (a + 32) 0x700) (a + 40) 0x900

file : Bytes
unfolding ident header segment
file =
    let named = header (ident (λ a. 0) 0x2000) 0x2000 in
    let noted = store_bytes 4 named (0x2000 + 64) pt_note in
    let stacked = store_bytes 4 noted (0x2000 + 64 + phdr_size) pt_gnu_stack in
    segment stacked (0x2000 + 64 + 2 * phdr_size)

file_header :
    read_ehdr file 0x2000 ≡ record { e_entry = 0x100e8; e_phoff = 64; e_flags = 0; e_phnum = 3 }
unfolding read_ehdr file load_bytes load64 store_bytes put
file_header = refl

file_segment : (phdr_at file 0x2000 64 2).p_memsz ≡ 0x900
unfolding phdr_at read_phdr file load_bytes load64 store_bytes put
file_segment = refl

loaded : (task : Task) → (load_file file 0x2000 task).thread.sepc ≡ 0x100e8
unfolding load_file read_ehdr load_program file load_bytes load64 store_bytes put
loaded task = refl
