-- ===== src/Fault/Rights.antt =====
-- The rights of an area's pages.
use simple_rv64os.Base.{
  ℕ, ◌*◌, ◌^◌, ◌<◌, ◌≡◌, refl, Bool, true, false, arith, bit_and, bit_or, ◌==◌, if◌then◌else◌,
}
use simple_rv64os.Defs.{pte_v}
use simple_rv64os.Fault.{area_perm}
use simple_rv64os.Perm.{map_vm_perm, vm_r_mask, vm_w_mask, vm_x_mask}
use simple_rv64os.Task.{VmArea}

rights : Bool → Bool → Bool → ℕ
rights r w x =
    let flags =
      bit_or (bit_or ((if r then 0 else 1) * 2) ((if w then 0 else 1) * 4))
        ((if x then 0 else 1) * 8) in
    bit_or (bit_or flags 16) 1

rights_lem : (r w x : Bool) → (rights r w x < 2 ^ 10) × (bit_or (rights r w x) pte_v ≡ rights r w x)
unfolding rights
rights_lem true true true = (omega arith, refl)
rights_lem true true false = (omega arith, refl)
rights_lem true false true = (omega arith, refl)
rights_lem true false false = (omega arith, refl)
rights_lem false true true = (omega arith, refl)
rights_lem false true false = (omega arith, refl)
rights_lem false false true = (omega arith, refl)
rights_lem false false false = (omega arith, refl)

-- They fit an entry, and are valid.
pub area_perm_lem :
    (vma : VmArea) → (area_perm vma < 2 ^ 10) × (bit_or (area_perm vma) pte_v ≡ area_perm vma)
unfolding map_vm_perm rights
area_perm_lem vma =
    rights_lem (bit_and vma.vm_flags vm_r_mask == 0) (bit_and vma.vm_flags vm_w_mask == 0)
      (bit_and vma.vm_flags vm_x_mask == 0)
