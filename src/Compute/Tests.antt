-- ===== src/Compute/Tests.antt =====
-- src/expression/value_compute.rs on concrete operands.
use kip_sql.Prelude.{◌≡◌, refl, true, some, none, inl}
use kip_sql.Prelude.Int.{pos, negsuc}
use kip_sql.Prelude.Outcome.{ok, panic}
use kip_sql.Value.{int32, int8, boolean, is_null, logical_type, partial_cmp}
use kip_sql.Value.Plain.{plain}
use kip_sql.Compute.{unpack_i32}
use kip_sql.Compute.Plain.{machine}
use kip_sql.Compute.Binary.{binary_op, lt_eq, plus, typed_op}
use kip_sql.Compute.Nulls.{binary_op_null}
use kip_sql.Compute.Comparisons.{binary_op_order, binary_op_unsupported}
use kip_sql.Types.{max_logical_type}
use kip_sql.Value.Cast.{cast}

binary_op_null_example : is_null {D = Unit} (int32 none) ≡ true
unfolding is_null binary_op max_logical_type logical_type typed_op cast unpack_i32
binary_op_null_example =
    binary_op_null machine (int32 none) (int32 (some (pos 4))) (int32 none) plus refl (inl refl)
      refl

binary_op_order_example :
    binary_op machine (int32 (some (negsuc 4))) (int32 (some (pos 3))) lt_eq
    ≡ ok (boolean (some true))
unfolding partial_cmp
binary_op_order_example =
    binary_op_order plain machine (int32 (some (negsuc 4))) (int32 (some (pos 3))) lt_eq tt tt refl
      refl

binary_op_unsupported_example :
    binary_op machine (int8 (some (pos 1))) (int8 (some (pos 2))) plus ≡ panic
binary_op_unsupported_example =
    binary_op_unsupported plain machine (int8 (some (pos 1))) (int8 (some (pos 2))) plus tt
      (λ e. cc) (λ e. cc)
