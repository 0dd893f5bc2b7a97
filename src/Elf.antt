-- ===== src/Elf.antt =====
-- A program's ELF file as it lies in memory: the types of include/elf.h that the loader reads, each as the
-- read of its width, least byte first, and load_program (arch/riscv/include/proc.h) with load_elf_program
-- (arch/riscv/kernel/proc.c) on the file at an address. Only what a loader for this machine can meet of
-- the header's constants is taken.
mod Examples
use simple_rv64os.Base.{ℕ, ◌+◌, ◌*◌, List, [], ◌∷◌}
use simple_rv64os.Base.Word.{add64, mul64}
use simple_rv64os.Bytes.{Bytes, load_bytes, load64}
use simple_rv64os.Task.{Task, Elf64Ehdr, Elf64Phdr, load_program}

unfoldable pub elf64_half : Bytes → ℕ → ℕ
elf64_half memory a = load_bytes 2 memory a

unfoldable pub elf64_word : Bytes → ℕ → ℕ
elf64_word memory a = load_bytes 4 memory a

unfoldable pub elf64_xword : Bytes → ℕ → ℕ
elf64_xword memory a = load64 memory a

unfoldable pub elf64_addr : Bytes → ℕ → ℕ
elf64_addr memory a = load64 memory a

unfoldable pub elf64_off : Bytes → ℕ → ℕ
elf64_off memory a = load64 memory a

abbrev pub ei_nident : ℕ
ei_nident = 16

abbrev pub ei_mag0 : ℕ
ei_mag0 = 0

abbrev pub elfmag0 : ℕ
elfmag0 = 0x7f

abbrev pub ei_mag1 : ℕ
ei_mag1 = 1

abbrev pub elfmag1 : ℕ
elfmag1 = b'E'

abbrev pub ei_mag2 : ℕ
ei_mag2 = 2

abbrev pub elfmag2 : ℕ
elfmag2 = b'L'

abbrev pub ei_mag3 : ℕ
ei_mag3 = 3

abbrev pub elfmag3 : ℕ
elfmag3 = b'F'

abbrev pub ei_class : ℕ
ei_class = 4

abbrev pub elfclass64 : ℕ
elfclass64 = 2

abbrev pub elfclass32 : ℕ
elfclass32 = 1

abbrev pub ei_data : ℕ
ei_data = 5

abbrev pub elfdata2lsb : ℕ
elfdata2lsb = 1

abbrev pub elfdata2msb : ℕ
elfdata2msb = 2

abbrev pub ei_version : ℕ
ei_version = 6

abbrev pub ei_osabi : ℕ
ei_osabi = 7

abbrev pub ei_abiversion : ℕ
ei_abiversion = 8

abbrev pub ei_pad : ℕ
ei_pad = 9

abbrev pub ev_current : ℕ
ev_current = 1

abbrev pub et_exec : ℕ
et_exec = 2

abbrev pub et_none : ℕ
et_none = 0

abbrev pub et_rel : ℕ
et_rel = 1

abbrev pub et_dyn : ℕ
et_dyn = 3

abbrev pub et_core : ℕ
et_core = 4

abbrev pub em_riscv : ℕ
em_riscv = 243

abbrev pub pt_note : ℕ
pt_note = 4

abbrev pub pt_null : ℕ
pt_null = 0

abbrev pub pt_dynamic : ℕ
pt_dynamic = 2

abbrev pub pt_interp : ℕ
pt_interp = 3

abbrev pub pt_shlib : ℕ
pt_shlib = 5

abbrev pub pt_phdr : ℕ
pt_phdr = 6

abbrev pub pt_tls : ℕ
pt_tls = 7

abbrev pub pt_gnu_stack : ℕ
pt_gnu_stack = 0x6474_e551

-- The types of segments that do not go by a system or a processor, but for PT_LOAD.
abbrev pub other_types : List ℕ
other_types = pt_null ∷ pt_dynamic ∷ pt_interp ∷ pt_note ∷ pt_shlib ∷ pt_phdr ∷ pt_tls ∷ []

-- Where the fields of an Elf64_Ehdr lie behind its e_ident.
abbrev pub at_type : ℕ
at_type = ei_nident

abbrev pub at_machine : ℕ
at_machine = at_type + 2

abbrev pub at_version : ℕ
at_version = at_machine + 2

abbrev pub at_entry : ℕ
at_entry = at_version + 4

abbrev pub at_phoff : ℕ
at_phoff = at_entry + 8

abbrev pub at_shoff : ℕ
at_shoff = at_phoff + 8

abbrev pub at_flags : ℕ
at_flags = at_shoff + 8

abbrev pub at_ehsize : ℕ
at_ehsize = at_flags + 4

abbrev pub at_phentsize : ℕ
at_phentsize = at_ehsize + 2

abbrev pub at_phnum : ℕ
at_phnum = at_phentsize + 2

-- The Elf64_Ehdr at an address.
unfoldable pub read_ehdr : Bytes → ℕ → Elf64Ehdr
unfolding elf64_addr elf64_off elf64_word elf64_half
read_ehdr memory a = record {
  e_entry = elf64_addr memory (add64 a at_entry);
  e_phoff = elf64_off memory (add64 a at_phoff);
  e_flags = elf64_word memory (add64 a at_flags);
  e_phnum = elf64_half memory (add64 a at_phnum);
}

-- sizeof(Elf64_Phdr): two words and six fields of eight bytes.
abbrev pub phdr_size : ℕ
phdr_size = 2 * 4 + 6 * 8

-- The Elf64_Phdr at an address.
unfoldable pub read_phdr : Bytes → ℕ → Elf64Phdr
unfolding elf64_word elf64_off elf64_addr elf64_xword
read_phdr memory a = record {
  p_type = elf64_word memory a;
  p_flags = elf64_word memory (add64 a 4);
  p_offset = elf64_off memory (add64 a 8);
  p_vaddr = elf64_addr memory (add64 a 16);
  p_filesz = elf64_xword memory (add64 a 32);
  p_memsz = elf64_xword memory (add64 a 40);
}

-- (Elf64_Phdr *)(phdr_start + sizeof(Elf64_Phdr) * i)
unfoldable pub phdr_at : Bytes → ℕ → ℕ → ℕ → Elf64Phdr
phdr_at memory ehdr e_phoff i = read_phdr memory (add64 (add64 ehdr e_phoff) (mul64 phdr_size i))

-- load_program on the file that lies at `uapp_start`.
unfoldable pub load_file : Bytes → ℕ → Task → Task
load_file memory uapp_start task =
    let ehdr = read_ehdr memory uapp_start in
    load_program task ehdr (phdr_at memory uapp_start ehdr.e_phoff)
