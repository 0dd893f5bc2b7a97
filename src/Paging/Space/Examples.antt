-- ===== src/Paging/Space/Examples.antt =====
-- A page mapped in a tree of tables that has only its root.
use simple_rv64os.Base.{◌≡◌, refl, some, arith}
use simple_rv64os.Mm.Examples.{three_left, three_left-IsBuddy}
use simple_rv64os.Paging.{Machine, map_final_pgtbl}
use simple_rv64os.Paging.Space.{Owner}
use simple_rv64os.Paging.Space.Page.{page_at, free_count}
use simple_rv64os.Paging.Space.Fresh.{root_only, fresh-IsSpace}
use simple_rv64os.Paging.Space.Refines.{Maps, map_final_pgtbl-Maps}

abbrev clear : Machine
clear = record { memory = λ a. 0; buddy = three_left }

three_free : free_count 4 2 three_left ≡ 3
unfolding free_count
three_free = refl

map_final_pgtbl-Maps_example :
    (m' : Machine) × (owner' : Owner) × (map_final_pgtbl clear (page_at 0) 0x5123 0x8040_0000 22
      ≡ some m')
    × Maps 2 clear (page_at 0) (root_only (page_at 0)) 0x5123 0x8040_0000 22 m' owner'
map_final_pgtbl-Maps_example =
    map_final_pgtbl-Maps 2 clear (page_at 0) (root_only (page_at 0)) 0x5123 0x8040_0000 22
      (fresh-IsSpace 2 0 three_left (λ a. 0) three_left-IsBuddy (omega arith) refl refl
        (λ a lo hi. refl) (λ p a within free lo hi. refl))
      (omega arith) (omega (arith, three_free)) (omega arith) (omega arith)
