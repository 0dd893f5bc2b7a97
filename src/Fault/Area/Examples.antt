-- ===== src/Fault/Area/Examples.antt =====
-- A program's page of the parent, copied for a child in a memory of eight pages: the child's root, the
-- parent's three tables, the page, and three free pages.
use simple_rv64os.Base.{
  ℕ, ◌+◌, ◌*◌, ◌^◌, ◌<◌, ◌≤◌, ◌≡◌, refl, sym, ◌∙◌, ap, subst, ◌⊎◌, inl, inr, some, arith, leb, ltb,
  ◌%◌, ◌==◌, ◌&&◌, if◌then◌else◌, true, false,
}
use simple_rv64os.Base.Arrays.{put}
use simple_rv64os.Buddy.{Buddy}
use simple_rv64os.Buddy.Take.{IsBuddy, is_free}
use simple_rv64os.Bytes.{Bytes, load64, store64, load_bytes, store_bytes}
use simple_rv64os.Bytes.Words.{Outside, store64-Outside}
use simple_rv64os.Defs.{pa2va}
use simple_rv64os.Fault.{area_perm, copy_vma_mem}
use simple_rv64os.Fault.Area.{copy_vma_mem-IsCopied}
use simple_rv64os.Fault.Child.{IsCopied}
use simple_rv64os.Fault.Walk.{IsData, LiesOn, IsReadable}
use simple_rv64os.Paging.{Machine}
use simple_rv64os.Paging.Walk.{child}
use simple_rv64os.Paging.Space.{look, view, Owner, IsSpace}
use simple_rv64os.Paging.Space.Fresh.{root_only, root_only-other, fresh-IsSpace}
use simple_rv64os.Paging.Space.Page.{page_at, free_count}
use simple_rv64os.Task.{VmArea}

abbrev three_of_eight : Buddy
three_of_eight = record {
  size = 8;
  bitmap = λ i.
      if i == 0
      then 2
      else if i == 2
      then 2
      else if i == 5
      then 1
      else if i == 6
      then 2
      else if leb i 11
      then 0
      else if leb i 14
      then 1
      else 0;
}

three_of_eight-IsBuddy : IsBuddy 3 three_of_eight
three_of_eight-IsBuddy = record {
  pages = refl;
  fits = omega arith;
  tree = (
    ((omega arith, omega arith, inl refl), (omega arith, omega arith, inl refl), inl refl),
    ((omega arith, omega arith, inl refl), (omega arith, omega arith, inl refl), inl refl),
    inl refl,
  );
}

abbrev page_four : Bytes
page_four a = if leb (page_at 4) a && ltb a (page_at 5) then a % 251 else 0

-- The entry for page 16 in each of the parent's tables.
abbrev memory : Bytes
memory =
    store64
      (store64 (store64 page_four (page_at 1) ((2 ^ 19 + 2) * 2 ^ 10 + 1)) (page_at 2)
        ((2 ^ 19 + 3) * 2 ^ 10 + 1))
      (page_at 3 + 128) ((2 ^ 19 + 4) * 2 ^ 10 + 0x1f)

abbrev before_fork : Machine
before_fork = record { memory = memory; buddy = three_of_eight }

clear_there : (a : ℕ) → (a < page_at 1) ⊎ (page_at 5 ≤ a) → memory a ≡ 0
clear_there a where_to =
    store64-Outside _ (page_at 3 + 128) ((2 ^ 19 + 4) * 2 ^ 10 + 0x1f) a
      (away (page_at 3 + 128) (omega arith) (omega arith) where_to)
    ∙ store64-Outside _ (page_at 2) ((2 ^ 19 + 3) * 2 ^ 10 + 1) a
        (away (page_at 2) (omega arith) (omega arith) where_to)
    ∙ store64-Outside page_four (page_at 1) ((2 ^ 19 + 2) * 2 ^ 10 + 1) a
        (away (page_at 1) (omega arith) (omega arith) where_to)
    ∙ zero_there where_to
  where
    away :
        (t : ℕ)
        → page_at 1 ≤ t
        → t + 8 ≤ page_at 5
        → (a < page_at 1) ⊎ (page_at 5 ≤ a)
        → Outside t a
    away t lo hi (inl below) = inl (omega arith)
    away t lo hi (inr above) = inr (omega arith)

    zero_there : (a < page_at 1) ⊎ (page_at 5 ≤ a) → page_four a ≡ 0
    zero_there (inl below) = ground arith
    zero_there (inr above) = ground arith

before_fork-IsSpace : IsSpace 3 before_fork (page_at 0) (root_only (page_at 0))
before_fork-IsSpace =
    fresh-IsSpace 3 0 three_of_eight memory three_of_eight-IsBuddy (omega arith) refl refl
      (λ a lo hi. clear_there a (inl (omega arith)))
      (λ p a within free lo hi. clear_there a (inr (omega (arith, above p within free))))
  where
    above : (p : ℕ) → p < 8 → is_free 3 three_of_eight p ≡ true → 5 ≤ p
    above p within free = ground arith

table_page :
    (p : ℕ)
    → 0 < p
    → p < 8
    → is_free 3 three_of_eight p ≡ false
    → IsData 3 before_fork (root_only (page_at 0)) (page_at p)
table_page p pos within used = record {
  page = p;
  start = refl;
  within = within;
  used = used;
  plain = root_only-other 0 p (λ e. omega arith);
}

page_sixteen : view memory (page_at 1) 16 ≡ some (2 ^ 19 + 4, 0x1f)
unfolding look load64 store64 child put load_bytes store_bytes
page_sixteen = refl

walk_sixteen : LiesOn 2 3 before_fork (root_only (page_at 0)) (page_at 1) 16
unfolding LiesOn load64 store64 child put load_bytes store_bytes
walk_sixteen = (
  table_page 1 (omega arith) (omega arith) refl,
  λ on. (
    table_page 2 (omega arith) (omega arith) refl,
    λ on'. table_page 3 (omega arith) (omega arith) refl,
  ),
)

parent-IsReadable : IsReadable 3 before_fork (root_only (page_at 0)) (page_at 1) 1 16
parent-IsReadable = record {
  walks = λ page lo hi.
      let same : 16 ≡ page = omega arith in
      subst (LiesOn 2 3 before_fork (root_only (page_at 0)) (page_at 1)) same walk_sixteen;
  frames = λ page frame rights lo hi here.
      let same : 16 ≡ page = omega arith in
      let both = sym page_sixteen ∙ ap (view memory (page_at 1)) same ∙ here in
      let at : 2 ^ 19 + 4 ≡ frame = cc both in
      subst (λ x. IsData 3 before_fork (root_only (page_at 0)) (pa2va (x * 4096))) at
        (table_page 4 (omega arith) (omega arith) refl);
}

abbrev program : VmArea
program = record {
  vm_start = 0x100e8;
  vm_end = 0x109e8;
  vm_flags = 14;
  vm_content_offset_in_file = 0xe8;
  vm_content_size_in_file = 0x700;
}

three_free : free_count 8 3 three_of_eight ≡ 3
unfolding free_count
three_free = refl

copy_vma_mem-IsCopied_example :
    (m' : Machine) × (owner' : Owner) × (copy_vma_mem before_fork program (page_at 1) (page_at 0)
      ≡ some m')
    × IsCopied 3 before_fork
        (root_only (page_at 0))
        (page_at 1)
        (page_at 0)
        1
        16
        (area_perm program)
        m'
        owner'
copy_vma_mem-IsCopied_example =
    copy_vma_mem-IsCopied 3 before_fork (root_only (page_at 0)) program (page_at 1) (page_at 0)
      before_fork-IsSpace (omega arith) (omega arith) (omega arith) (omega (arith, three_free))
      parent-IsReadable
