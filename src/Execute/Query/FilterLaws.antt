-- ===== src/Execute/Query/FilterLaws.antt =====
-- Filters of src/execution/executor/dql/filter.rs, one after the other and as one.
use kip_sql.Prelude.{◌≡◌, refl, true, false, Bool, none, some, Option, [], ◌∷◌, All, ◌&&◌}
use kip_sql.Prelude.Outcome.{Outcome, ok, err, panic}
use kip_sql.Types.{LogicalType, max_logical_type}
use kip_sql.Value.{External, boolean, logical_type}
use kip_sql.Value.Cast.{cast}
use kip_sql.Compute.{Machine, unpack_bool}
use kip_sql.Compute.Binary.{BinaryOperator, binary_op, typed_op, boolean_op, both}
use kip_sql.Expression.{Expr, binary}
use kip_sql.Expression.Eval.{eval, Free}
use kip_sql.Execute.Query.{
  Row, Stream, ExecutorError, FilterOperator, filtered, execute_filter, combine_filter,
}

-- `and` of two Booleans, a null among them giving null.
pub binary_op-and :
    {D : Type 0} (m : Machine D) (a b : Option Bool)
    → binary_op m (boolean a) (boolean b) BinaryOperator.and
      ≡ ok (boolean (both (λ a b. a && b) a b))
unfolding binary_op typed_op boolean_op max_logical_type logical_type cast unpack_bool
binary_op-and m a b = refl

module _ {K D : Type 0} (x : External D) (m : Machine D) where
  -- A row, if it is one, on which both predicates are Booleans and no column has the name of their
  -- conjunction.
  abbrev pub Judged : Expr D → Expr D → Outcome (ExecutorError K) (Row D) → Type 0
  Judged p q (ok t) =
      ((a : Option Bool) × (eval x m t p ≡ ok (boolean a)))
      × ((b : Option Bool) × (eval x m t q ≡ ok (boolean b)))
      × Free m t (binary BinaryOperator.and p q LogicalType.boolean)
  Judged p q failed = Unit

  filtered_twice :
      (p : Expr D) (t : Row D) (a b : Option Bool) (rest rest' : Stream K D)
      → eval x m t p ≡ ok (boolean a)
      → rest' ≡ execute_filter x m p rest
      → filtered t (ok (boolean (both (λ a b. a && b) a b))) rest'
        ≡ execute_filter x m p (filtered t (ok (boolean b)) rest)
  unfolding execute_filter
  filtered_twice p t (some a) none rest rest' h i = i
  filtered_twice p t none none rest rest' h i = i
  filtered_twice p t (some true) (some true) rest rest' h i = rw (h, i) refl
  filtered_twice p t (some false) (some true) rest rest' h i = rw (h, i) refl
  filtered_twice p t none (some true) rest rest' h i = rw (h, i) refl
  filtered_twice p t (some true) (some false) rest rest' h i = i
  filtered_twice p t (some false) (some false) rest rest' h i = i
  filtered_twice p t none (some false) rest rest' h i = i

  -- On rows where both predicates are Booleans and no column has the name of their conjunction, the
  -- filter that two adjacent filters are combined to yields what the two yield.
  pub combine_filter_lem :
      (op child_op : FilterOperator D) (input : Stream K D)
      → All (Judged op.predicate child_op.predicate) input
      → execute_filter x m (combine_filter op child_op).predicate input
        ≡ execute_filter x m op.predicate (execute_filter x m child_op.predicate input)
  unfolding execute_filter combine_filter eval
  combine_filter_lem op child_op [] h = refl
  combine_filter_lem op child_op (ok t ∷ input) (((a, f), (b, g), free), hs) =
      let rest = combine_filter_lem op child_op input hs in
      rw (free, f, g, binary_op-and m a b)
        (filtered_twice op.predicate t a b (execute_filter x m child_op.predicate input) _ f rest)
  combine_filter_lem op child_op (err e ∷ input) h = refl
  combine_filter_lem op child_op (panic ∷ input) h = refl
