-- ===== src/Optimizer.antt =====
-- src/optimizer/rule: what the rules do to operators. src/planner/operator/join.rs: kinds of joins.
pub mod Conjunctions
pub mod Conjuncts
mod Tests
use kip_sql.Prelude.{
  Bool, true, false, not, ◌&&◌, Option, none, some, List, [], ◌∷◌, ◌++◌, if◌then◌else◌,
}
use kip_sql.Types.{LogicalType}
use kip_sql.Value.Cast.{Conversions}
use kip_sql.Catalog.{ColumnCatalog}
use kip_sql.Compute.Binary.{BinaryOperator}
use kip_sql.Expression.{Expr, binary}
use kip_sql.Expression.Names.{referenced_columns}
use kip_sql.Execute.Query.{FilterOperator}

pub data JoinType : Type 0 where
  inner left right full cross : JoinType

-- The filters of the left input, of the right input, and of the join.
pub record NewOps (D : Type 0) : Type 0 where
  pub left_op : Option (FilterOperator D)
  pub right_op : Option (FilterOperator D)
  pub common_op : Option (FilterOperator D)

module _ {A : Type 0} where
  -- `Iterator::partition`: those that pass, and the others.
  unfoldable pub partition : (A → Bool) → List A → List A × List A
  partition f [] = ([], [])
  partition f (a ∷ xs) =
      let (passed, others) = partition f xs in
      if f a then (a ∷ passed, others) else (passed, a ∷ others)

  abbrev pub any : (A → Bool) → List A → Bool
  any f [] = false
  any f (a ∷ xs) = if f a then true else any f xs

  abbrev pub all : (A → Bool) → List A → Bool
  all f [] = true
  all f (a ∷ xs) = f a && all f xs

module _ {D : Type 0} where
  unfoldable pub split_conjunctive_predicates : Expr D → List (Expr D)
  split_conjunctive_predicates (binary BinaryOperator.and l r ty) =
      split_conjunctive_predicates l ++ split_conjunctive_predicates r
  split_conjunctive_predicates expr = expr ∷ []

  unfoldable pub join_with : Expr D → List (Expr D) → Expr D
  join_with a [] = a
  join_with a (b ∷ bs) = join_with (binary BinaryOperator.and a b LogicalType.boolean) bs

  unfoldable pub reduce_filters : List (Expr D) → Bool → Option (FilterOperator D)
  unfolding join_with
  reduce_filters [] having = none
  reduce_filters (f ∷ fs) having = some (record { predicate = join_with f fs; having = having })

  -- `same` is the equality of columns.
  abbrev pub is_subset_cols :
      (ColumnCatalog D (Expr D) → ColumnCatalog D (Expr D) → Bool)
      → List (ColumnCatalog D (Expr D))
      → List (ColumnCatalog D (Expr D))
      → Bool
  is_subset_cols same ls rs = all (λ l. any (λ r. same r l) rs) ls

  -- What `PushPredicateThroughJoin::apply` makes of the left, the right and the common filters.
  unfoldable pub place_filters :
      JoinType → Bool → List (Expr D) → List (Expr D) → List (Expr D) → NewOps D
  unfolding reduce_filters
  place_filters JoinType.inner having left_filters right_filters common_filters = record {
    left_op = reduce_filters left_filters having;
    right_op = reduce_filters right_filters having;
    common_op = reduce_filters common_filters having;
  }
  place_filters JoinType.left having left_filters right_filters common_filters = record {
    left_op = reduce_filters left_filters having;
    right_op = none;
    common_op = reduce_filters (common_filters ++ right_filters) having;
  }
  place_filters JoinType.right having left_filters right_filters common_filters = record {
    left_op = none;
    right_op = reduce_filters right_filters having;
    common_op = reduce_filters (common_filters ++ left_filters) having;
  }
  place_filters _ having left_filters right_filters common_filters = record {
    left_op = none;
    right_op = none;
    common_op = none;
  }

  -- The conjuncts by the columns of the inputs of the join.
  abbrev pub place_parts :
      (ColumnCatalog D (Expr D) → ColumnCatalog D (Expr D) → Bool)
      → Conversions D
      → JoinType
      → List (ColumnCatalog D (Expr D))
      → List (ColumnCatalog D (Expr D))
      → FilterOperator D
      → NewOps D
  unfolding partition split_conjunctive_predicates referenced_columns place_filters
  place_parts same y join_type left_columns right_columns op =
      let (left_filters, rest) =
        partition (λ f. is_subset_cols same (referenced_columns y true f) left_columns)
          (split_conjunctive_predicates op.predicate) in
      let (right_filters, common_filters) =
        partition (λ f. is_subset_cols same (referenced_columns y true f) right_columns) rest in
      place_filters join_type op.having left_filters right_filters common_filters

  -- `none` where the rule leaves the plan alone.
  unfoldable pub new_ops :
      (ColumnCatalog D (Expr D) → ColumnCatalog D (Expr D) → Bool)
      → Conversions D
      → JoinType
      → List (ColumnCatalog D (Expr D))
      → List (ColumnCatalog D (Expr D))
      → FilterOperator D
      → Option (NewOps D)
  new_ops same y JoinType.full left_columns right_columns op = none
  new_ops same y JoinType.cross left_columns right_columns op = none
  new_ops same y join_type left_columns right_columns op =
      some (place_parts same y join_type left_columns right_columns op)
