-- ===== src/Types/Tests.antt =====
-- src/types/mod.rs on concrete types.
use kip_sql.Prelude.{◌≡◌, ◌≢◌, refl, true}
use kip_sql.Prelude.Outcome.{err, panic, to_option}
use kip_sql.Types.{
  LogicalType, combine_numeric_types, combine_calls, max_logical_type, can_implicit_cast,
  internal_error, can_not_combine, is_signed_numeric, is_unsigned_numeric, is_numeric,
}
use kip_sql.Types.Laws.{
  max_logical_type_comm, combine_numeric_types_total, combine_mixed_sign,
  combine_numeric_types_least,
}

max_logical_type_comm_test :
    to_option (max_logical_type LogicalType.tinyint LogicalType.integer)
    ≡ to_option (max_logical_type LogicalType.integer LogicalType.tinyint)
max_logical_type_comm_test = max_logical_type_comm LogicalType.tinyint LogicalType.integer

combine_numeric_types_total_example :
    (combine_calls 5 LogicalType.integer LogicalType.u_tinyint
      ≡ combine_numeric_types LogicalType.integer LogicalType.u_tinyint)
    × (combine_numeric_types LogicalType.integer LogicalType.u_tinyint ≢ panic)
combine_numeric_types_total_example =
    combine_numeric_types_total 3 LogicalType.integer LogicalType.u_tinyint

combine_mixed_sign_example :
    (combine_numeric_types LogicalType.integer LogicalType.u_integer
      ≡ err (internal_error (can_not_combine LogicalType.u_integer LogicalType.integer)))
    × (combine_numeric_types LogicalType.u_integer LogicalType.integer
        ≡ err (internal_error (can_not_combine LogicalType.u_integer LogicalType.integer)))
unfolding can_implicit_cast is_signed_numeric is_unsigned_numeric
combine_mixed_sign_example = combine_mixed_sign LogicalType.integer LogicalType.u_integer refl refl

combine_numeric_types_least_example :
    (can_implicit_cast LogicalType.tinyint LogicalType.float ≡ true)
    × (can_implicit_cast LogicalType.float LogicalType.float ≡ true)
    × (can_implicit_cast LogicalType.tinyint LogicalType.double ≡ true
        → can_implicit_cast LogicalType.float LogicalType.double ≡ true
        → can_implicit_cast LogicalType.float LogicalType.double ≡ true)
unfolding is_numeric combine_numeric_types
combine_numeric_types_least_example =
    combine_numeric_types_least LogicalType.tinyint LogicalType.float LogicalType.double refl refl
      refl
