-- ===== src/Bytes/Examples.antt =====
-- memset and memcpy at concrete addresses.
use simple_rv64os.Base.{◌+◌, ◌-◌, ◌%◌, ◌^◌, ◌≡◌, inl, ◌&&◌, arith, ltb, leb, if◌then◌else◌}
use simple_rv64os.Bytes.{memset, memcpy}
use simple_rv64os.Bytes.Copy.{memcpy_lem, memset_lem}

-- Overlapping, three bytes down.
memcpy_lem_example :
    memcpy (λ a. a) 100 103 8 104
    ≡ (if leb 100 104 && ltb 104 (100 + 8) then 103 + (104 - 100) else 104)
memcpy_lem_example =
    memcpy_lem (λ a. a) 100 103 8 104 (omega arith) (omega arith) (omega arith) (inl (omega arith))

memset_lem_example :
    memset (λ a. a) 100 258 8 104 ≡ (if leb 100 104 && ltb 104 (100 + 8) then 258 % 2 ^ 8 else 104)
memset_lem_example = memset_lem (λ a. a) 100 258 8 104 (omega arith)
