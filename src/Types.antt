-- ===== src/Types.antt =====
-- src/types/mod.rs and src/types/errors.rs: the logical types of columns and values, the type two
-- operands are brought to, and the errors of the type system.
pub mod Laws
mod Tests
use kip_sql.Prelude.{
  ℕ, zero, suc, Bool, true, false, ◌&&◌, Option, none, some, List, [], ◌∷◌, if◌then◌else◌, ◌==◌,
  option_eq,
}
use kip_sql.Prelude.Bytes.{Bytes}
use kip_sql.Prelude.Outcome.{Outcome, ok, err, panic}

pub data LogicalType : Type 0 where
  invalid sql_null boolean : LogicalType
  tinyint u_tinyint smallint u_smallint integer u_integer bigint u_bigint : LogicalType
  float double : LogicalType
  varchar : Option ℕ → LogicalType
  date date_time : LogicalType
  -- precision and scale
  decimal : Option ℕ → Option ℕ → LogicalType

-- The texts that `TypeError::InternalError` is built with.
pub data Message : Type 0 where
  can_not_compare can_not_combine : LogicalType → LogicalType → Message

pub data TypeError : Type 0 where
  invalid_type primary_key_not_found cast_fail too_long not_null : TypeError
  internal_error : Message → TypeError
  try_from_int parse_int parse_bool parse_float parse_date bincode : TypeError
  try_from_decimal from_utf8_error : TypeError
  not_implemented_sqlparser_data_type : Bytes → TypeError

-- The derived `PartialEq`: the discriminant, then the fields.
abbrev discriminant : LogicalType → ℕ
discriminant invalid = 0
discriminant sql_null = 1
discriminant boolean = 2
discriminant tinyint = 3
discriminant u_tinyint = 4
discriminant smallint = 5
discriminant u_smallint = 6
discriminant integer = 7
discriminant u_integer = 8
discriminant bigint = 9
discriminant u_bigint = 10
discriminant float = 11
discriminant double = 12
discriminant (varchar _) = 13
discriminant date = 14
discriminant date_time = 15
discriminant (decimal _ _) = 16

abbrev first_field : LogicalType → Option ℕ
first_field (varchar len) = len
first_field (decimal precision scale) = precision
first_field _ = none

abbrev second_field : LogicalType → Option ℕ
second_field (decimal precision scale) = scale
second_field _ = none

unfoldable pub type_eq : LogicalType → LogicalType → Bool
type_eq a b =
    discriminant a == discriminant b
    && (option_eq (first_field a) (first_field b) && option_eq (second_field a) (second_field b))

-- The width in bytes of a stored value; `none` for texts.
unfoldable pub raw_len : LogicalType → Option ℕ
raw_len invalid = some 0
raw_len sql_null = some 0
raw_len boolean = some 1
raw_len tinyint = some 1
raw_len u_tinyint = some 1
raw_len smallint = some 2
raw_len u_smallint = some 2
raw_len integer = some 4
raw_len u_integer = some 4
raw_len bigint = some 8
raw_len u_bigint = some 8
raw_len float = some 4
raw_len double = some 8
raw_len (varchar _) = none
raw_len (decimal _ _) = some 16
raw_len date = some 4
raw_len date_time = some 8

unfoldable pub numeric : List LogicalType
numeric =
    tinyint ∷ u_tinyint ∷ smallint ∷ u_smallint ∷ integer ∷ u_integer ∷ bigint ∷ u_bigint ∷ float
    ∷ double ∷ []

unfoldable pub is_signed_numeric : LogicalType → Bool
is_signed_numeric tinyint = true
is_signed_numeric smallint = true
is_signed_numeric integer = true
is_signed_numeric bigint = true
is_signed_numeric _ = false

unfoldable pub is_unsigned_numeric : LogicalType → Bool
is_unsigned_numeric u_tinyint = true
is_unsigned_numeric u_smallint = true
is_unsigned_numeric u_integer = true
is_unsigned_numeric u_bigint = true
is_unsigned_numeric _ = false

unfoldable pub is_floating_point_numeric : LogicalType → Bool
is_floating_point_numeric float = true
is_floating_point_numeric double = true
is_floating_point_numeric _ = false

unfoldable pub is_numeric : LogicalType → Bool
is_numeric tinyint = true
is_numeric u_tinyint = true
is_numeric smallint = true
is_numeric u_smallint = true
is_numeric integer = true
is_numeric u_integer = true
is_numeric bigint = true
is_numeric u_bigint = true
is_numeric float = true
is_numeric double = true
is_numeric _ = false

-- The table of `can_implicit_cast`, behind its test of equality.
implicit_table : LogicalType → LogicalType → Bool
implicit_table sql_null _ = true
implicit_table tinyint smallint = true
implicit_table tinyint integer = true
implicit_table tinyint bigint = true
implicit_table tinyint float = true
implicit_table tinyint double = true
implicit_table u_tinyint u_smallint = true
implicit_table u_tinyint u_integer = true
implicit_table u_tinyint u_bigint = true
implicit_table u_tinyint smallint = true
implicit_table u_tinyint integer = true
implicit_table u_tinyint bigint = true
implicit_table u_tinyint float = true
implicit_table u_tinyint double = true
implicit_table smallint integer = true
implicit_table smallint bigint = true
implicit_table smallint float = true
implicit_table smallint double = true
implicit_table u_smallint u_integer = true
implicit_table u_smallint u_bigint = true
implicit_table u_smallint integer = true
implicit_table u_smallint bigint = true
implicit_table u_smallint float = true
implicit_table u_smallint double = true
implicit_table integer bigint = true
implicit_table integer float = true
implicit_table integer double = true
implicit_table u_integer u_bigint = true
implicit_table u_integer bigint = true
implicit_table u_integer float = true
implicit_table u_integer double = true
implicit_table bigint float = true
implicit_table bigint double = true
implicit_table u_bigint float = true
implicit_table u_bigint double = true
implicit_table float double = true
implicit_table date date_time = true
implicit_table date (varchar _) = true
implicit_table date_time date = true
implicit_table date_time (varchar _) = true
implicit_table _ _ = false

unfoldable pub can_implicit_cast : LogicalType → LogicalType → Bool
unfolding type_eq implicit_table
can_implicit_cast from to = if type_eq from to then true else implicit_table from to

-- The last `match` of `combine_numeric_types`.
upcast : LogicalType → LogicalType → Outcome TypeError LogicalType
upcast bigint _ = ok double
upcast _ u_bigint = ok double
upcast integer _ = ok bigint
upcast _ u_integer = ok bigint
upcast smallint _ = ok integer
upcast _ u_smallint = ok integer
upcast tinyint _ = ok smallint
upcast _ u_tinyint = ok smallint
upcast left right = err (internal_error (can_not_combine left right))

-- The function calls itself with the operands exchanged; `calls` bounds the depth, and
-- `combine_numeric_types` starts with enough.
unfoldable pub combine_calls : ℕ → LogicalType → LogicalType → Outcome TypeError LogicalType
unfolding type_eq is_signed_numeric is_unsigned_numeric can_implicit_cast upcast
combine_calls zero left right = panic
combine_calls (suc calls) left right =
    let swapped = combine_calls calls right left in
    if type_eq left right
    then ok left
    else if is_signed_numeric left && is_unsigned_numeric right
    then swapped
    else if can_implicit_cast left right
    then ok right
    else if can_implicit_cast right left
    then ok left
    else upcast left right

unfoldable pub combine_numeric_types : LogicalType → LogicalType → Outcome TypeError LogicalType
unfolding combine_calls
combine_numeric_types left right = combine_calls 2 left right

-- What `max_logical_type` does after the tests of equality, of null and of numbers.
mixed_type : LogicalType → LogicalType → Outcome TypeError LogicalType
mixed_type date (varchar _) = ok date
mixed_type (varchar _) date = ok date
mixed_type date date_time = ok date_time
mixed_type date_time date = ok date_time
mixed_type date_time (varchar _) = ok date_time
mixed_type (varchar _) date_time = ok date_time
mixed_type left right = err (internal_error (can_not_compare left right))

null_or_mixed_type : LogicalType → LogicalType → Outcome TypeError LogicalType
unfolding is_numeric combine_numeric_types mixed_type
null_or_mixed_type sql_null right = ok right
null_or_mixed_type left sql_null = ok left
null_or_mixed_type left right =
    if is_numeric left && is_numeric right
    then combine_numeric_types left right
    else mixed_type left right

unfoldable pub max_logical_type : LogicalType → LogicalType → Outcome TypeError LogicalType
unfolding type_eq null_or_mixed_type
max_logical_type left right = if type_eq left right then ok left else null_or_mixed_type left right
