-- ===== src/Optimizer/Conjuncts.antt =====
-- src/optimizer/rule/pushdown_predicates.rs: what a condition says, taken apart and put together.
use kip_sql.Prelude.{
  ◌≡◌, sym, ◌∙◌, refl, ap, true, false, Bool, none, some, Option, List, [], ◌∷◌, ◌++◌, All, ◌&&◌,
  arith,
}
use kip_sql.Prelude.Outcome.{Outcome, ok}
use kip_sql.Types.{LogicalType, TypeError}
use kip_sql.Value.{DataValue, External, boolean}
use kip_sql.Catalog.{ColumnCatalog}
use kip_sql.Compute.{Machine}
use kip_sql.Compute.Binary.{BinaryOperator, both}
use kip_sql.Expression.{Expr, binary}
use kip_sql.Expression.Eval.{eval, Free}
use kip_sql.Execute.Query.{Row, FilterOperator}
use kip_sql.Execute.Query.FilterLaws.{binary_op-and}
use kip_sql.Optimizer.Conjunctions.{
  and_true, and_assoc, and_comm, and_turn, all_append, all-partition, partition-All, append-All,
  All-append,
}
use kip_sql.Optimizer.{
  JoinType, NewOps, place_parts, is_subset_cols, partition, all, split_conjunctive_predicates,
  join_with, reduce_filters, place_filters, new_ops,
}
use kip_sql.Expression.Names.{referenced_columns}

abbrev pub is_true : {D : Type 0} → Outcome TypeError (DataValue D) → Bool
is_true (ok (boolean (some true))) = true
is_true _ = false

abbrev IsPushed : JoinType → Type 0
IsPushed JoinType.full = ⊥
IsPushed JoinType.cross = ⊥
IsPushed _ = Unit

module _ {D : Type 0} (x : External D) (m : Machine D) (t : Row D) where
  -- The condition lets the row through.
  abbrev pub holds : Expr D → Bool
  unfolding eval
  holds e = is_true (eval x m t e)

  abbrev pub holds_op : Option (FilterOperator D) → Bool
  holds_op none = true
  holds_op (some op) = holds op.predicate

  abbrev pub IsJudged : Expr D → Type 0
  IsJudged e = (a : Option Bool) × (eval x m t e ≡ ok (boolean a))

  -- No column of the row has the name of a conjunction.
  abbrev pub NoConjunction : Type 0
  NoConjunction = (p q : Expr D) (ty : LogicalType) → Free m t (binary BinaryOperator.and p q ty)

  both-is_true :
      (a b : Option Bool)
      → is_true {D = D} (ok (boolean (both (λ a b. a && b) a b)))
        ≡ is_true {D = D} (ok (boolean a)) && is_true {D = D} (ok (boolean b))
  both-is_true none none = refl
  both-is_true none (some b) = refl
  both-is_true (some true) none = refl
  both-is_true (some false) none = refl
  both-is_true (some true) (some true) = refl
  both-is_true (some true) (some false) = refl
  both-is_true (some false) (some b) = refl

  eval-and :
      (l r : Expr D) (ty : LogicalType)
      → IsJudged l
      → IsJudged r
      → Free m t (binary BinaryOperator.and l r ty)
      → IsJudged (binary BinaryOperator.and l r ty)
        × (holds (binary BinaryOperator.and l r ty) ≡ holds l && holds r)
  unfolding eval
  eval-and l r ty (a, p) (b, q) free =
      rw (free, p, q, binary_op-and m a b) ((both (λ a b. a && b) a b, refl), both-is_true a b)

  split_all :
      NoConjunction
      → (e : Expr D) → All IsJudged (split_conjunctive_predicates e)
      → IsJudged e × (holds e ≡ all holds (split_conjunctive_predicates e))
  unfolding split_conjunctive_predicates
  split_all free (binary BinaryOperator.and l r ty) h =
      let (hl, hr) =
        All-append IsJudged (split_conjunctive_predicates l) (split_conjunctive_predicates r) h in
      let (jl, el) = split_all free l hl in
      let (jr, er) = split_all free r hr in
      let (j, e) = eval-and l r ty jl jr (free l r ty) in
      (
        j,
        rw (e, el, er)
            (sym
              (all_append holds (split_conjunctive_predicates l) (split_conjunctive_predicates r))),
      )
  split_all free e h = (h.0, and_true (holds e))

  join_all :
      NoConjunction
      → (a : Expr D) (bs : List (Expr D)) → IsJudged a
      → All IsJudged bs
      → holds (join_with a bs) ≡ holds a && all holds bs
  unfolding join_with
  join_all free a [] j js = and_true (holds a)
  join_all free a (b ∷ bs) j (k, js) =
      let (both_judged, e) = eval-and a b LogicalType.boolean j k (free a b LogicalType.boolean) in
      rw (join_all free (binary BinaryOperator.and a b LogicalType.boolean) bs both_judged js, e)
        (sym (and_assoc (holds a) (holds b) (all holds bs)))

  reduce_all :
      NoConjunction
      → (fs : List (Expr D)) (having : Bool) → All IsJudged fs
      → holds_op (reduce_filters fs having) ≡ all holds fs
  unfolding reduce_filters
  reduce_all free [] having js = refl
  reduce_all free (f ∷ fs) having (j, js) = join_all free f fs j js

  -- What the placed filters say together.
  abbrev pub holds_ops : NewOps D → Bool
  holds_ops ops = holds_op ops.left_op && (holds_op ops.right_op && holds_op ops.common_op)

  place_all :
      NoConjunction
      → (join_type : JoinType) (having : Bool) (ls rs cs : List (Expr D)) → IsPushed join_type
      → All IsJudged ls
      → All IsJudged rs
      → All IsJudged cs
      → holds_ops (place_filters join_type having ls rs cs)
        ≡ all holds ls && (all holds rs && all holds cs)
  unfolding place_filters
  place_all free JoinType.inner having ls rs cs i hl hr hc =
      rw (reduce_all free ls having hl, reduce_all free rs having hr, reduce_all free cs having hc)
        refl
  place_all free JoinType.left having ls rs cs i hl hr hc =
      rw
        (
          reduce_all free ls having hl,
          reduce_all free (cs ++ rs) having (append-All IsJudged cs rs hc hr),
          all_append holds cs rs,
        )
        (ap (λ b. all holds ls && b) (and_comm (all holds cs) (all holds rs)))
  place_all free JoinType.right having ls rs cs i hl hr hc =
      rw
        (
          reduce_all free rs having hr,
          reduce_all free (cs ++ ls) having (append-All IsJudged cs ls hc hl),
          all_append holds cs ls,
        )
        (and_turn (all holds rs) (all holds cs) (all holds ls))
  place_all free JoinType.full having ls rs cs i hl hr hc = absurd i
  place_all free JoinType.cross having ls rs cs i hl hr hc = absurd i

  conjuncts_placed :
      (f g : Expr D → Bool) (join_type : JoinType) (having : Bool) (e : Expr D)
      → NoConjunction
      → IsPushed join_type
      → All IsJudged (split_conjunctive_predicates e)
      → holds e
        ≡ holds_ops (
            place_filters join_type having
              (partition f (split_conjunctive_predicates e)).0
              (partition g (partition f (split_conjunctive_predicates e)).1).0
              (partition g (partition f (split_conjunctive_predicates e)).1).1)
  conjuncts_placed f g join_type having e free i h =
      let exprs = split_conjunctive_predicates e in
      let rest = (partition f exprs).1 in
      let (hl, hs) = partition-All IsJudged f exprs h in
      let (hr, hc) = partition-All IsJudged g rest hs in
      (split_all free e h).1
      ∙ all-partition holds f exprs
      ∙ ap (λ b. all holds (partition f exprs).0 && b) (all-partition holds g rest)
      ∙ sym (
          place_all free join_type having (partition f exprs).0 (partition g rest).0
            (partition g rest).1 i hl hr hc)

  given : Option (NewOps D) → Bool
  given none = true
  given (some ops) = holds_ops ops

  pushed :
      (same : ColumnCatalog D (Expr D) → ColumnCatalog D (Expr D) → Bool) (join_type : JoinType)
      (left_columns right_columns : List (ColumnCatalog D (Expr D))) (op : FilterOperator D)
      (ops : NewOps D)
      → NoConjunction
      → IsPushed join_type
      → All IsJudged (split_conjunctive_predicates op.predicate)
      → some (place_parts same m.conversions join_type left_columns right_columns op) ≡ some ops
      → holds op.predicate ≡ holds_ops ops
  unfolding place_parts given
  pushed same join_type left_columns right_columns op ops free i h e =
      conjuncts_placed
        (λ f. is_subset_cols same (referenced_columns m.conversions true f) left_columns)
        (λ f. is_subset_cols same (referenced_columns m.conversions true f) right_columns) join_type
        op.having op.predicate free i h
      ∙ ap given e

  -- On a row where every conjunct of a filter above a join is a Boolean and no column has the name of
  -- a conjunction, the filter lets the row through just when all the filters do that the rule places
  -- at the inputs of the join and above it.
  pub new_ops_lem :
      (same : ColumnCatalog D (Expr D) → ColumnCatalog D (Expr D) → Bool) (join_type : JoinType)
      (left_columns right_columns : List (ColumnCatalog D (Expr D))) (op : FilterOperator D)
      (ops : NewOps D)
      → NoConjunction
      → All IsJudged (split_conjunctive_predicates op.predicate)
      → new_ops same m.conversions join_type left_columns right_columns op ≡ some ops
      → holds op.predicate ≡ holds_ops ops
  unfolding new_ops
  new_ops_lem same JoinType.full left_columns right_columns op ops free h e = ground arith
  new_ops_lem same JoinType.cross left_columns right_columns op ops free h e = ground arith
  new_ops_lem same JoinType.inner left_columns right_columns op ops free h e =
      pushed same JoinType.inner left_columns right_columns op ops free tt h e
  new_ops_lem same JoinType.left left_columns right_columns op ops free h e =
      pushed same JoinType.left left_columns right_columns op ops free tt h e
  new_ops_lem same JoinType.right left_columns right_columns op ops free h e =
      pushed same JoinType.right left_columns right_columns op ops free tt h e
