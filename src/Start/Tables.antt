-- ===== src/Start/Tables.antt =====
-- The kernel's page table after mm_init and vm_init.
use simple_rv64os.Base.{
  ℕ, zero, suc, ◌+◌, ◌-◌, ◌*◌, ◌^◌, ◌<◌, ◌≤◌, ◌≡◌, ◌≢◌, refl, sym, ◌∙◌, ap, subst, true, false,
  Option, none, some, arith, leb,
}
use simple_rv64os.Buddy.{Bitmap, Buddy}
use simple_rv64os.Buddy.Take.{is_free}
use simple_rv64os.Defs.{phy_start, va2pa}
use simple_rv64os.Kernel.{Kernel, Layout}
use simple_rv64os.Mm.{buddy_init}
use simple_rv64os.Mm.Init.{buddy_init_lem}
use simple_rv64os.Paging.{Machine, setup_vm_final}
use simple_rv64os.Paging.Space.{view, Owner, IsSpace}
use simple_rv64os.Paging.Space.Fresh.{root_only, root_only-other, fresh-IsSpace, fresh-view}
use simple_rv64os.Paging.Space.Kernel.{kernel_view, setup_vm_final-kernel_view}
use simple_rv64os.Paging.Space.Page.{page_at, free_count}
use simple_rv64os.Run.{done, of_option, ◌>>=◌}
use simple_rv64os.Sched.{get_satp}
use simple_rv64os.Start.{mm_init, vm_init}

-- How many pages are free above the first `top`.
count_above :
    (n d top : ℕ) (b : Buddy)
    → n ≤ 2 ^ d
    → ((p : ℕ) → p < 2 ^ d → is_free d b p ≡ leb top p)
    → free_count n d b ≡ n - top
unfolding free_count
count_above zero d top b le free = omega arith
count_above (suc n) d top b le free =
    let rest = count_above n d top b (omega arith) free in rw (free n (omega arith)) (ground arith)

-- The kernel with its image in the first `top` pages of memory, its root table in page s, its text up to
-- the page t and its read-only data up to the page r; the root table and the memory behind the image are
-- clear.
pub record IsLoaded (lay : Layout) (k : Kernel) (top s t r : ℕ) : Type 0 where
  pub image_fits : lay.ekernel + 2 ^ 19 < 2 ^ 64
  pub image_end : va2pa (lay.ekernel + 2 ^ 19) ≤ phy_start + 4096 * top
  pub image_end' : phy_start + 4096 * top < va2pa (lay.ekernel + 2 ^ 19) + 4096
  pub room : top + 134 ≤ 2 ^ 15
  pub root_at : lay.swapper_pg_dir ≡ page_at s
  pub root_inside : s < top
  pub text_from : 512 ≤ t
  pub text_end : lay.etext ≤ page_at t
  pub text_end' : page_at t < lay.etext + 4096
  pub data_from : t ≤ r
  pub data_to : r ≤ 2 ^ 15
  pub data_end : lay.erodata ≤ page_at r
  pub data_end' : page_at r < lay.erodata + 4096
  pub clear_root : (a : ℕ) → page_at s ≤ a → a < page_at s + 4096 → k.machine.memory a ≡ 0
  pub clear_above : (a : ℕ) → page_at top ≤ a → a < page_at (2 ^ 15) → k.machine.memory a ≡ 0

boot_run :
    (lay : Layout) (bitmap : Bitmap) (k : Kernel) (b : Buddy) (end : ℕ) (m' : Machine)
    → buddy_init lay.ekernel bitmap ≡ some (b, end)
    → setup_vm_final lay.etext lay.erodata lay.swapper_pg_dir (record k.machine { buddy = b })
      ≡ some m'
    → (mm_init lay bitmap k >>= vm_init lay)
      ≡ done
          (record k { machine = m'; sched = record k.sched { satp = get_satp lay.swapper_pg_dir } })
unfolding mm_init vm_init ◌>>=◌
boot_run lay bitmap k b end m' init run =
    ap
      (λ x.
        (of_option x >>= λ made. done (record k { machine = record k.machine { buddy = made.0 } }))
        >>= vm_init lay)
      init
    ∙ ap
        (λ x. of_option x >>= λ machine. done (record k {
          machine = machine;
          sched = record k.sched { satp = get_satp lay.swapper_pg_dir };
        }))
        run

kernel_view-ap :
    (t r : ℕ) (old old' : ℕ → Option (ℕ × ℕ)) (page : ℕ)
    → old page ≡ old' page
    → kernel_view t r old page ≡ kernel_view t r old' page
kernel_view-ap t r old old' page e = ground arith

-- With the kernel loaded in clear memory, as IsLoaded says, mm_init and vm_init return. satp then selects
-- the kernel's table, the root of a tree of tables, which leads pages 512 to 2 ^ 15 of memory to their own
-- frames, text to read and execute, read-only data to read, the rest to read and write, and no other page
-- anywhere; and the pages of the image keep their bytes but for that table.
pub vm_init-kernel_view :
    (lay : Layout) (k : Kernel) (bitmap : Bitmap) (top s t r : ℕ)
    → IsLoaded lay k top s t r
    → (k' : Kernel) × (owner : Owner) × ((mm_init lay bitmap k >>= vm_init lay) ≡ done k')
      × (k'.sched.satp ≡ get_satp lay.swapper_pg_dir)
      × IsSpace 15 k'.machine lay.swapper_pg_dir owner
      × ((page : ℕ)
          → page < 2 ^ 27
          → view k'.machine.memory lay.swapper_pg_dir page ≡ kernel_view t r (λ p. none) page)
      × ((p a : ℕ)
          → p < top
          → p ≢ s
          → page_at p ≤ a
          → a < page_at p + 4096
          → k'.machine.memory a ≡ k.machine.memory a)
vm_init-kernel_view lay k bitmap top s t r l =
    let (b, init, valid, free) =
      buddy_init_lem lay.ekernel top bitmap l.image_fits l.image_end l.image_end'
        (omega (arith, l.room)) in
    let m0 : Machine = record k.machine { buddy = b } in
    let root = page_at s in
    let inside = l.root_inside in
    let space : IsSpace 15 m0 root (root_only root) =
      fresh-IsSpace 15 s b k.machine.memory valid (omega (arith, l.room))
        (free 0 (omega arith) ∙ below top 0 (omega arith))
        (free s (omega (arith, l.room)) ∙ below top s inside) l.clear_root
        (λ p a within here lo hi.
          let above : top ≤ p = not_below top p (sym (free p within) ∙ here) in
          l.clear_above a (omega arith) (omega arith)) in
    let (m', owner, run, space', map, kept, _) =
      setup_vm_final-kernel_view 15 m0 root (root_only root) lay.etext lay.erodata t r space
        (omega arith) l.text_from l.data_from l.data_to l.text_end l.text_end' l.data_end
        l.data_end' (omega (arith, count_above (2 ^ 15) 15 top b (omega arith) free, l.room)) in
    let run' : setup_vm_final lay.etext lay.erodata lay.swapper_pg_dir m0 ≡ some m' =
      ap (λ x. setup_vm_final lay.etext lay.erodata x m0) l.root_at ∙ run in
    (
      record k { machine = m'; sched = record k.sched { satp = get_satp lay.swapper_pg_dir } },
      owner,
      boot_run lay bitmap k b _ m' init run',
      refl,
      subst (λ x. IsSpace 15 m' x owner) (sym l.root_at) space',
      λ page low.
          ap (λ x. view m'.memory x page) l.root_at
          ∙ map page low
          ∙ kernel_view-ap t r (view m0.memory root) (λ p. none) page
              (fresh-view k.machine.memory root page l.clear_root),
      λ p a lt ne lo hi.
          let (_, _, same) =
            kept p (omega (arith, l.room)) (free p (omega (arith, l.room)) ∙ below top p lt)
              (root_only-other s p ne) in
          same a lo hi,
    )
  where
    below : (n p : ℕ) → p < n → leb n p ≡ false
    below n p lt = ground arith

    not_below : (n p : ℕ) → leb n p ≡ true → n ≤ p
    not_below n p e = ground arith
