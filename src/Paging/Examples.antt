-- ===== src/Paging/Examples.antt =====
-- Page tables at concrete addresses.
use simple_rv64os.Base.{ℕ, ◌+◌, ◌%◌, ◌≡◌, refl, false, none, some, arith}
use simple_rv64os.Defs.{phy_start, vm_start, vpn_0, vpn_1, vpn_2}
use simple_rv64os.Bytes.{store64, load64, store_bytes, load_bytes}
use simple_rv64os.Bytes.Words.{Outside}
use simple_rv64os.Base.Arrays.{put}
use simple_rv64os.Paging.{setup_vm, Machine, entry, next_table, map_final_pgtbl, is_va_mapped}
use simple_rv64os.Paging.Early.{translate_early, setup_vm-translate_early}
use simple_rv64os.Paging.Walk.{translate}
use simple_rv64os.Paging.Map.{is_mapped, is_va_mapped-translate, map_final_pgtbl-translate}

setup_vm-translate_early_example :
    (translate_early (setup_vm (λ i. 9)) (phy_start + 0x20_1234) ≡ some (phy_start + 0x20_1234))
    × (translate_early (setup_vm (λ i. 9)) (vm_start + 0x20_1234) ≡ some (phy_start + 0x20_1234))
    × (translate_early (setup_vm (λ i. 9)) 0x1000 ≡ none)
setup_vm-translate_early_example =
    setup_vm-translate_early (λ i. 9) 0x20_1234 0x1000 (omega arith) (λ h. omega arith)
      (λ h. omega arith)

-- A root at 0x8030_0000 with one table of each level, the last of them empty.
abbrev root : ℕ
root = 0xffff_ffe0_0030_0000

abbrev tables : Machine
tables = record {
  memory =
      store64 (store64 (λ a. 0) 0xffff_ffe0_0030_0000 0x200c_0401) 0xffff_ffe0_0030_1000
        0x200c_0801;
  buddy = record { size = 1; bitmap = λ i. 0 };
}

first_level : next_table tables root (vpn_2 0x5123) ≡ some (0xffff_ffe0_0030_1000, tables)
unfolding next_table vpn_2 load64 load_bytes store64 store_bytes put
first_level = refl

second_level :
    next_table tables 0xffff_ffe0_0030_1000 (vpn_1 0x5123) ≡ some (0xffff_ffe0_0030_2000, tables)
unfolding next_table vpn_1 load64 load_bytes store64 store_bytes put
second_level = refl

not_yet : is_va_mapped tables.memory 0x5123 root ≡ false
unfolding is_va_mapped load64 load_bytes store64 store_bytes put vpn_0 vpn_1 vpn_2
not_yet = refl

is_va_mapped-translate_example :
    is_va_mapped tables.memory 0x5123 root ≡ is_mapped (translate tables.memory root 0x5123)
is_va_mapped-translate_example =
    is_va_mapped-translate tables.memory 0x5123 root (omega arith, omega arith)

map_final_pgtbl-translate_example :
    (m' : Machine) × (map_final_pgtbl tables root 0x5123 0x8040_0000 22 ≡ some m')
    × (translate m'.memory root 0x5123 ≡ some (0x8040_0000 + 0x5123 % 4096))
    × (m'.buddy ≡ tables.buddy)
    × ((a : ℕ)
        → Outside (entry root (vpn_2 0x5123)) a
        → Outside (entry 0xffff_ffe0_0030_1000 (vpn_1 0x5123)) a
        → Outside (entry 0xffff_ffe0_0030_2000 (vpn_0 0x5123)) a
        → m'.memory a ≡ tables.memory a)
map_final_pgtbl-translate_example =
    map_final_pgtbl-translate tables tables tables root 0xffff_ffe0_0030_1000 0xffff_ffe0_0030_2000
      0x5123 0x8040_0000 22 (omega arith, omega arith) first_level second_level (λ e. omega arith)
      (λ e. omega arith) (λ e. omega arith) (omega arith) (omega arith) (omega arith)
