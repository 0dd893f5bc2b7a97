-- ===== src/Task/Load.antt =====
-- load_elf_program and load_program: the areas a program gets.
use simple_rv64os.Base.{
  ℕ, zero, suc, ◌+◌, ◌^◌, ◌<◌, ◌≤◌, ◌≡◌, refl, sym, ◌∙◌, ap, inl, inr, List, [], ◌∷◌, ◌++◌, arith,
  ◌==◌, if◌then◌else◌, Bool-cases,
}
use simple_rv64os.Base.Arrays.{put, put-same, put-other}
use simple_rv64os.Base.Word.{add64}
use mathlib.Core.List.{append_assoc, append-nil}
use simple_rv64os.Perm.{perm_elf2vm}
use simple_rv64os.Task.{
  VmArea, Task, do_mmap, Elf64Ehdr, Elf64Phdr, pt_load, load_segment, load_loop, load_elf_program,
  load_program,
}

-- The n areas of an array from index i.
pub areas_from : ℕ → ℕ → (ℕ → VmArea) → List VmArea
areas_from i zero vmas = []
areas_from i (suc n) vmas = vmas i ∷ areas_from (i + 1) n vmas

pub areas : Task → List VmArea
areas task = areas_from 0 task.vma_cnt task.vmas

-- The area of a loadable segment: its address range and its place in the file, with every right.
pub segment_area : Elf64Phdr → VmArea
segment_area phdr = record {
  vm_start = phdr.p_vaddr;
  vm_end = add64 phdr.p_vaddr phdr.p_memsz;
  vm_flags = perm_elf2vm phdr.p_flags;
  vm_content_offset_in_file = phdr.p_offset;
  vm_content_size_in_file = phdr.p_filesz;
}

-- The areas of the loadable segments among n program headers from the i-th, in their order.
pub segments : ℕ → ℕ → (ℕ → Elf64Phdr) → List VmArea
segments i zero phdrs = []
segments i (suc n) phdrs =
    let rest = segments (i + 1) n phdrs in
    if (phdrs i).p_type == pt_load then segment_area (phdrs i) ∷ rest else rest

areas_from-snoc :
    (n i : ℕ) (f g : ℕ → VmArea) (v : VmArea)
    → ((j : ℕ) → i ≤ j → j < i + n → g j ≡ f j)
    → g (i + n) ≡ v
    → areas_from i (suc n) g ≡ areas_from i n f ++ v ∷ []
unfolding areas_from
areas_from-snoc zero i f g v old new = ap (λ x. x ∷ []) (ap g (omega arith) ∙ new)
areas_from-snoc (suc n) i f g v old new =
    let rest =
      areas_from-snoc n (i + 1) f g v (λ j le lt. old j (omega arith) (omega arith))
        (ap g (omega arith) ∙ new) in
    rw (old i (omega arith) (omega arith), rest) refl

-- One program header adds the area of its segment, or nothing.
areas-load_segment :
    (task : Task) (phdr : Elf64Phdr)
    → task.vma_cnt + 1 < 2 ^ 64
    → (areas (load_segment task phdr)
        ≡ areas task ++ (if phdr.p_type == pt_load then segment_area phdr ∷ [] else []))
      × ((load_segment task phdr).vma_cnt ≤ task.vma_cnt + 1)
unfolding areas load_segment do_mmap segment_area
areas-load_segment task phdr room = elim (Bool-cases (phdr.p_type == pt_load)) [
  | inl loads ↦
      let n = task.vma_cnt in
      let cnt : add64 n 1 ≡ suc n = omega arith in
      let more =
        areas_from-snoc n 0 task.vmas (put task.vmas n (segment_area phdr)) (segment_area phdr)
          (λ j le lt. put-other task.vmas n (segment_area phdr) j (omega arith))
          (ap (put task.vmas n (segment_area phdr)) (omega arith)
            ∙ put-same task.vmas n (segment_area phdr)) in
      rw loads
        (ap (λ c. areas_from 0 c (put task.vmas n (segment_area phdr))) cnt ∙ more, omega arith)
  | inr other ↦ rw other (sym (append-nil _), omega arith)
]

segments-suc :
    (i n : ℕ) (phdrs : ℕ → Elf64Phdr)
    → segments i (suc n) phdrs
      ≡ (if (phdrs i).p_type == pt_load then segment_area (phdrs i) ∷ [] else [])
        ++ segments (i + 1) n phdrs
unfolding segments
segments-suc i n phdrs = elim (Bool-cases ((phdrs i).p_type == pt_load)) [
  | inl loads ↦ rw loads refl
  | inr other ↦ rw other refl
]

areas-load_loop :
    (left i : ℕ) (phdrs : ℕ → Elf64Phdr) (task : Task)
    → task.vma_cnt + left < 2 ^ 64
    → areas (load_loop left i phdrs task) ≡ areas task ++ segments i left phdrs
unfolding load_loop
areas-load_loop zero i phdrs task room = unfold segments in sym (append-nil _)
areas-load_loop (suc left) i phdrs task room =
    let (here, few) = areas-load_segment task (phdrs i) (omega arith) in
    areas-load_loop left (i + 1) phdrs (load_segment task (phdrs i)) (omega arith)
    ∙ ap (λ l. l ++ segments (i + 1) left phdrs) here
    ∙ append_assoc (areas task) _ (segments (i + 1) left phdrs)
    ∙ ap (λ l. areas task ++ l) (sym (segments-suc i left phdrs))

-- load_program appends to the task's areas exactly those of the program's loadable segments, in the
-- order of the program headers, and starts the task at the program's entry, provided the count of
-- areas does not wrap.
pub areas-load_program :
    (task : Task) (ehdr : Elf64Ehdr) (phdrs : ℕ → Elf64Phdr)
    → task.vma_cnt + ehdr.e_phnum < 2 ^ 64
    → (areas (load_program task ehdr phdrs) ≡ areas task ++ segments 0 ehdr.e_phnum phdrs)
      × ((load_program task ehdr phdrs).thread.sepc ≡ ehdr.e_entry)
unfolding load_program load_elf_program areas
areas-load_program task ehdr phdrs room = (areas-load_loop ehdr.e_phnum 0 phdrs task room, refl)
