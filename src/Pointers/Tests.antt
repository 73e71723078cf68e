-- ===== src/Pointers/Tests.antt =====
-- Pointers of `src/common/utils/pointer_traits.h` on concrete values.
use uh_core.Base.{◌*◌, ◌≡◌, arith}
use uh_core.Pointers.{get_group_id, get_group_pointer, ec_global_pointer, ec_storage_pointer}
use uh_core.Pointers.ErasureCoding.{ec_round_trip}

ec_round_trip_example :
    (ec_storage_pointer (get_group_pointer (ec_global_pointer 21 5 2 8 (8 * 4))) 8 (8 * 4)
      ≡ (2, 21))
    × (get_group_id (ec_global_pointer 21 5 2 8 (8 * 4)) ≡ 5)
ec_round_trip_example =
    ec_round_trip 8 4 (omega arith) 21 5 2 (omega arith) (omega arith) (omega arith) (omega arith)
      (omega arith)
