-- ===== src/Perm/Examples.antt =====
-- The laws of the access rights at concrete flags.
use simple_rv64os.Base.{◌≡◌}
use simple_rv64os.Perm.{map_vm_perm, perm_elf2vm, perm_elf2pte, map_elf_perm}
use simple_rv64os.Perm.Laws.{map_vm_perm-mask, perm_elf-all}

-- A readable and writable anonymous area.
map_vm_perm-mask_example : map_vm_perm 7 ≡ 6
map_vm_perm-mask_example = map_vm_perm-mask 7

-- A segment that is only readable comes out writable and executable.
perm_elf-all_example : (perm_elf2vm 4 ≡ 14) × (perm_elf2pte 4 ≡ 14) × (map_elf_perm 4 ≡ 14)
perm_elf-all_example = perm_elf-all 4
