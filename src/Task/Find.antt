-- ===== src/Task/Find.antt =====
-- find_vma: the first area that covers an address, before and after do_mmap.
use simple_rv64os.Base.{
  ℕ, zero, suc, ◌+◌, ◌^◌, ◌<◌, ◌≤◌, ◌≡◌, refl, sym, ◌∙◌, ap, ◌⊎◌, inl, inr, Bool, true, false, ◌&&◌,
  Option, none, some, arith, ltb, leb, ◌==◌, if◌then◌else◌, Bool-cases,
}
use simple_rv64os.Base.Arrays.{put-same, put-other}
use simple_rv64os.Base.Word.{add64}
use simple_rv64os.Task.{VmArea, Task, do_mmap, covers, find_loop, find_vma}

-- `i` is the first area that covers the address.
pub record FirstCover (task : Task) (addr i : ℕ) : Type 0 where
  pub known : i < task.vma_cnt
  pub cover : covers (task.vmas i) addr ≡ true
  pub first : (j : ℕ) → j < i → covers (task.vmas j) addr ≡ false

pub loop-stops :
    (left : ℕ) (vmas : ℕ → VmArea) (addr i : ℕ)
    → ((find_loop left vmas addr i ≡ i + left)
        × ((j : ℕ) → i ≤ j → j < i + left → covers (vmas j) addr ≡ false))
      ⊎ ((k : ℕ) × (find_loop left vmas addr i ≡ k)
          × (i ≤ k)
          × (k < i + left)
          × (covers (vmas k) addr ≡ true)
          × ((j : ℕ) → i ≤ j → j < k → covers (vmas j) addr ≡ false))
unfolding find_loop
loop-stops zero vmas addr i = inl (omega arith, λ j le lt. absurd (omega arith))
loop-stops (suc left) vmas addr i = elim (Bool-cases (covers (vmas i) addr)) [
  | inl here ↦
      inr (i, rw here refl, omega arith, omega arith, here, λ j le lt. absurd (omega arith))
  | inr not_here ↦ elim (loop-stops left vmas addr (i + 1)) [
    | inl (e, none_at) ↦ inl (
      rw (not_here, e) (omega arith),
      λ j le lt. skip i (i + 1 + left) j not_here none_at le (omega arith),
    )
    | inr (k, e, le, lt, hit, before) ↦ inr (
      k,
      rw (not_here, e) refl,
      omega arith,
      omega arith,
      hit,
      λ j le' lt'. skip i k j not_here before le' lt',
    )
  ]
]
  where
    skip :
        (i n j : ℕ)
        → covers (vmas i) addr ≡ false
        → ((j : ℕ) → i + 1 ≤ j → j < n → covers (vmas j) addr ≡ false)
        → i ≤ j
        → j < n
        → covers (vmas j) addr ≡ false
    skip i n j here after le lt = elim (Bool-cases (i == j)) [
      | inl e ↦ let same : i ≡ j = ground arith in ap (λ x. covers (vmas x) addr) (sym same) ∙ here
      | inr ne ↦ after j (ground arith) lt
    ]

-- find_vma returns the first area that covers the address, or NULL where none does.
pub find_vma-FirstCover :
    (task : Task) (addr : ℕ)
    → ((i : ℕ) × (find_vma task addr ≡ some i) × FirstCover task addr i)
      ⊎ ((find_vma task addr ≡ none)
          × ((j : ℕ) → j < task.vma_cnt → covers (task.vmas j) addr ≡ false))
unfolding find_vma
find_vma-FirstCover task addr = elim (loop-stops task.vma_cnt task.vmas addr 0) [
  | inl (e, none_at) ↦ inr (
    nothing task.vma_cnt (find_loop task.vma_cnt task.vmas addr 0) (e ∙ omega arith),
    λ j lt. none_at j (omega arith) (omega arith),
  )
  | inr (k, e, le, lt, hit, before) ↦ inl (
    k,
    found task.vma_cnt (find_loop task.vma_cnt task.vmas addr 0) k e (omega arith),
    record { known = omega arith; cover = hit; first = λ j lt'. before j (omega arith) lt' },
  )
]
  where
    nothing :
        (cnt i : ℕ)
        → i ≡ cnt
        → (if cnt == 0 then none else if i == cnt then none else some i) ≡ none
    nothing cnt i e = ground arith

    found :
        (cnt i k : ℕ)
        → i ≡ k
        → k < cnt
        → (if cnt == 0 then none else if i == cnt then none else some i) ≡ some k
    found cnt i k e lt = ground arith

-- What find_vma of a task with one more area answers, from its answer before.
pub or_new : Bool → ℕ → Option ℕ → Option ℕ
or_new new cnt (some i) = some i
or_new new cnt none = if new then some cnt else none

first_unique : (task : Task) (addr i : ℕ) → FirstCover task addr i → find_vma task addr ≡ some i
first_unique task addr i f = elim (find_vma-FirstCover task addr) [
  | inr (e, none_at) ↦ absurd (cc (sym (none_at i f.known) ∙ f.cover))
  | inl (k, e, g) ↦ elim (Bool-cases (k == i)) [
    | inl same ↦ let s : k ≡ i = ground arith in e ∙ ap some s
    | inr ne ↦ elim (Bool-cases (ltb k i)) [
      | inl lt ↦ absurd (cc (sym (f.first k (ground arith)) ∙ g.cover))
      | inr ge ↦ absurd (cc (sym (g.first i (ground arith)) ∙ f.cover))
    ]
  ]
]

find_extended :
    (task task' : Task) (addr : ℕ) (area : VmArea)
    → task'.vma_cnt ≡ task.vma_cnt + 1
    → ((j : ℕ) → j < task.vma_cnt → task'.vmas j ≡ task.vmas j)
    → task'.vmas task.vma_cnt ≡ area
    → find_vma task' addr ≡ or_new (covers area addr) task.vma_cnt (find_vma task addr)
unfolding or_new
find_extended task task' addr area cnt old new =
    let same : (j : ℕ) → j < task.vma_cnt → covers (task'.vmas j) addr ≡ covers (task.vmas j) addr =
      λ j lt. ap (λ a. covers a addr) (old j lt) in
    let last : covers (task'.vmas task.vma_cnt) addr ≡ covers area addr =
      ap (λ a. covers a addr) new in
    elim (find_vma-FirstCover task addr) [
      | inl (i, e, f) ↦
          let kept : FirstCover task' addr i = record {
            known = omega (arith, f.known);
            cover = same i f.known ∙ f.cover;
            first = λ j lt. same j (omega (arith, f.known)) ∙ f.first j lt;
          } in
          first_unique task' addr i kept ∙ rw e refl
      | inr (e, none_at) ↦ elim (Bool-cases (covers area addr)) [
        | inl hit ↦
            let added : FirstCover task' addr task.vma_cnt = record {
              known = omega arith;
              cover = last ∙ hit;
              first = λ j lt. same j lt ∙ none_at j lt;
            } in
            first_unique task' addr task.vma_cnt added
            ∙ ap (λ c. or_new c task.vma_cnt none) (sym hit)
            ∙ ap (or_new (covers area addr) task.vma_cnt) (sym e)
        | inr misses ↦ elim (find_vma-FirstCover task' addr) [
          | inl (k, e', f) ↦ elim (Bool-cases (ltb k task.vma_cnt)) [
            | inl lt ↦ absurd (cc (sym f.cover ∙ same k (ground arith) ∙ none_at k (ground arith)))
            | inr ge ↦
                let at : k ≡ task.vma_cnt = ground (arith, f.known) in
                absurd (cc (sym f.cover ∙ ap (λ x. covers (task'.vmas x) addr) at ∙ last ∙ misses))
          ]
          | inr (e', none_left) ↦
              e'
              ∙ ap (λ c. or_new c task.vma_cnt none) (sym misses)
              ∙ ap (or_new (covers area addr) task.vma_cnt) (sym e)
        ]
      ]
    ]

-- After do_mmap, find_vma answers as before where an older area covers the address, else with the
-- new area where that covers it, else with NULL, provided the count of areas does not wrap.
pub find_vma-do_mmap :
    (task : Task) (addr start length flags offset size : ℕ)
    → task.vma_cnt + 1 < 2 ^ 64
    → find_vma (do_mmap task start length flags offset size) addr
      ≡ or_new (leb start addr && ltb addr (add64 start length)) task.vma_cnt (find_vma task addr)
unfolding do_mmap
find_vma-do_mmap task addr start length flags offset size room =
    find_extended task (do_mmap task start length flags offset size) addr _ (omega arith)
      (λ j lt. put-other task.vmas task.vma_cnt _ j (omega arith))
      (put-same task.vmas task.vma_cnt _)
