-- ===== src/Start/Loaded.antt =====
-- The kernel loaded in clear memory, from page 512 on to page 600.
use simple_rv64os.Base.{ℕ, ◌+◌, ◌^◌, ◌<◌, ◌≤◌, ◌≡◌, ◌≢◌, refl, arith, none}
use simple_rv64os.Kernel.{Kernel, Layout}
use simple_rv64os.Paging.Space.{view, Owner, IsSpace}
use simple_rv64os.Paging.Space.Kernel.{kernel_view}
use simple_rv64os.Paging.Space.Page.{page_at}
use simple_rv64os.Run.{done, ◌>>=◌}
use simple_rv64os.Sched.{get_satp}
use simple_rv64os.Start.{mm_init, vm_init}
use simple_rv64os.Start.Examples.{layout, before}
use simple_rv64os.Start.Tables.{IsLoaded, vm_init-kernel_view}

abbrev image : Layout
image = record layout {
  ekernel = page_at 600;
  etext = page_at 519 + 0x10;
  erodata = page_at 529 + 0x20;
  swapper_pg_dir = page_at 590;
}

abbrev loaded : Kernel
loaded = record before { machine = record before.machine { memory = λ a. 0 } }

image-IsLoaded : IsLoaded image loaded 728 590 520 530
image-IsLoaded = record {
  image_fits = omega arith;
  image_end = omega arith;
  image_end' = omega arith;
  room = omega arith;
  root_at = refl;
  root_inside = omega arith;
  text_from = omega arith;
  text_end = omega arith;
  text_end' = omega arith;
  data_from = omega arith;
  data_to = omega arith;
  data_end = omega arith;
  data_end' = omega arith;
  clear_root = λ a lo hi. refl;
  clear_above = λ a lo hi. refl;
}

vm_init-kernel_view_example :
    (k' : Kernel) × (owner : Owner) × ((mm_init image (λ i. 0) loaded >>= vm_init image) ≡ done k')
    × (k'.sched.satp ≡ get_satp (page_at 590))
    × IsSpace 15 k'.machine (page_at 590) owner
    × ((page : ℕ)
        → page < 2 ^ 27
        → view k'.machine.memory (page_at 590) page ≡ kernel_view 520 530 (λ p. none) page)
    × ((p a : ℕ)
        → p < 728
        → p ≢ 590
        → page_at p ≤ a
        → a < page_at p + 4096
        → k'.machine.memory a ≡ 0)
vm_init-kernel_view_example =
    vm_init-kernel_view image loaded (λ i. 0) 728 590 520 530 image-IsLoaded
