-- ===== src/Execute/Groups/Fusion.antt =====
-- src/execution/executor/dql/aggregate/hash_agg.rs: the groups that are updated row by row, against rows
-- that are put into groups first and aggregated afterwards.
use kip_sql.Prelude.{
  ◌≡◌, refl, sym, ap, ◌∙◌, inl, inr, Bool-cases, Option, some, List, [], ◌∷◌, map,
}
use kip_sql.Prelude.Outcome.{Outcome, ok, err, panic, ◌>>=◌, to_option}
use kip_sql.Types.{TypeError}
use kip_sql.Value.{DataValue, External}
use kip_sql.Compute.{Machine}
use kip_sql.Expression.{Expr}
use kip_sql.Store.{convert}
use kip_sql.Store.Scans.{project_values}
use kip_sql.Execute.Query.{ExecutorError, type_error, Row, scalar}
use kip_sql.Execute.Groups.{
  Accumulator, Groups, create_accumulators, arguments, update_all, update_entry, same_keys,
  hash_loop,
}
use mathlib.Core.Path.{fun_ext}
use kip_sql.Execute.Groups.Bags.{bind, to_option-bind, entry, entries, fed, add_rows, fed-add_rows}

module _ {D : Type 0} (x : External D) (m : Machine D) where
  -- The keys and the arguments of aggregates that the rows have.
  unfoldable pub Read :
      List (Expr D)
      → List (Expr D)
      → List (Row D)
      → List (List (DataValue D) × List (DataValue D))
      → Type 0
  unfolding arguments project_values
  Read calls groupby [] [] = Unit
  Read calls groupby (t ∷ ts) ((keys, vs) ∷ pairs) =
      (arguments x m t calls ≡ ok vs)
      × (project_values (scalar x m) groupby t ≡ ok keys)
      × Read calls groupby ts pairs
  Read calls groupby _ _ = ⊥

  abbrev create_some : List (Expr D) → Option (List (Accumulator D))
  unfolding create_accumulators
  create_some calls = to_option (create_accumulators x m calls)

  abbrev update_some : List (Accumulator D) → List (DataValue D) → Option (List (Accumulator D))
  unfolding update_all
  update_some accs vs = to_option (update_all x m accs vs)

  update_entry-entry :
      (calls : List (Expr D)) (keys vs : List (DataValue D)) (groups : Groups D)
      → to_option (update_entry x m calls keys vs groups)
        ≡ entry (same_keys x m) (create_some calls) update_some keys vs groups
  unfolding update_entry entry
  update_entry-entry calls keys vs [] =
      to_option-bind (create_accumulators x m calls)
        (λ accs. update_all x m accs vs >>= λ accs'. ok ((keys, accs') ∷ []))
      ∙ ap (bind (create_some calls)) (
          fun_ext
            (λ accs. to_option-bind (update_all x m accs vs) (λ accs'. ok ((keys, accs') ∷ []))))
  update_entry-entry calls keys vs ((keys', accs) ∷ groups) =
      elim (Bool-cases (same_keys x m keys' keys)) [
        | inl h ↦
            rw h (to_option-bind (update_all x m accs vs) (λ accs'. ok ((keys', accs') ∷ groups)))
        | inr h ↦ rw h (
            to_option-bind (update_entry x m calls keys vs groups)
              (λ groups'. ok ((keys', accs) ∷ groups'))
            ∙ ap (λ o. bind o (λ groups'. some ((keys', accs) ∷ groups')))
                (update_entry-entry calls keys vs groups))
      ]

  continued :
      {K : Type 0} (r : Outcome TypeError (Groups D))
      (k : Groups D → Outcome (ExecutorError K) (Groups D)) (k' : Groups D → Option (Groups D))
      → ((groups : Groups D) → to_option (k groups) ≡ k' groups)
      → to_option (convert type_error r >>= k) ≡ bind (to_option r) k'
  continued (ok groups) k k' h = h groups
  continued (err e) k k' h = refl
  continued panic k k' h = refl

  hash_loop-entries :
      (K : Type 0) (calls groupby : List (Expr D)) (groups : Groups D) (ts : List (Row D))
      (pairs : List (List (DataValue D) × List (DataValue D)))
      → Read calls groupby ts pairs
      → to_option (hash_loop x m {K = K} calls groupby groups (map ok ts))
        ≡ entries (same_keys x m) (create_some calls) update_some pairs groups
  unfolding hash_loop entries Read
  hash_loop-entries K calls groupby groups [] [] h = refl
  hash_loop-entries K calls groupby groups (t ∷ ts) ((keys, vs) ∷ pairs) (hv, hk, h) =
      rw (hv, hk)
        (continued (update_entry x m calls keys vs groups)
            (λ groups'. hash_loop x m calls groupby groups' (map ok ts))
            (entries (same_keys x m) (create_some calls) update_some pairs)
            (λ groups'. hash_loop-entries K calls groupby groups' ts pairs h)
          ∙ ap (λ o. bind o (entries (same_keys x m) (create_some calls) update_some pairs))
              (update_entry-entry calls keys vs groups))
  hash_loop-entries K calls groupby groups [] (p ∷ pairs) h = absurd h
  hash_loop-entries K calls groupby groups (t ∷ ts) [] h = absurd h

  -- On rows whose keys and arguments are evaluated, the groups of a hash aggregation are those of the
  -- rows put into groups by their keys first, the accumulators of each group being fed its rows in
  -- their order; one fails where the other does.
  pub hash_loop_lem :
      (K : Type 0) (calls groupby : List (Expr D)) (ts : List (Row D))
      (pairs : List (List (DataValue D) × List (DataValue D)))
      → Read calls groupby ts pairs
      → to_option (hash_loop x m {K = K} calls groupby [] (map ok ts))
        ≡ fed
            (same_keys x m)
            (to_option (create_accumulators x m calls))
            (λ accs vs. to_option (update_all x m accs vs))
            (add_rows (same_keys x m) pairs [])
  unfolding entries fed create_accumulators create_some update_all update_some
  hash_loop_lem K calls groupby ts pairs h =
      hash_loop-entries K calls groupby [] ts pairs h
      ∙ sym (fed-add_rows (same_keys x m) (create_some calls) update_some pairs [])
