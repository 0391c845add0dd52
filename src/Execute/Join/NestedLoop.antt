-- ===== src/Execute/Join/NestedLoop.antt =====
-- src/execution/executor/dql/join/hash_join.rs: an inner hash join against two nested loops.
use kip_sql.Prelude.{
  ℕ, ◌≡◌, refl, ap, inl, inr, Bool, true, false, Bool-cases, Option, none, some, List, [], ◌∷◌,
  ◌++◌, map, All, ◌==◌, ==_iff, arith, if◌then◌else◌,
}
use kip_sql.Prelude.Outcome.{Outcome, ok}
use mathlib.Core.List.{append_assoc}
use kip_sql.Value.{DataValue, External}
use kip_sql.Catalog.{ColumnCatalog}
use kip_sql.Compute.{Machine}
use kip_sql.Expression.{Expr}
use kip_sql.Execute.Query.{ExecutorError, Row, Stream}
use kip_sql.Optimizer.{inner}
use kip_sql.Execute.Join.{
  on_keys, joins_nullable, columns_filling, push_tuple, get_tuples, join_tuples, joined, Probe,
  used,
}
use kip_sql.Execute.Join.Phases.{
  hash_row, build_loop, probe, probe_loop, join_on, execute_hash_join,
}
use mathlib.Core.List.{append_assoc}

-- Rows with their hashes.
abbrev pub Hashed : Type 0 → Type 0
Hashed D = List (ℕ × Row D)

module _ {D : Type 0} where
  -- The rows of the hash.
  unfoldable pub matching : ℕ → Hashed D → List (Row D)
  matching h [] = []
  matching h ((h', t) ∷ ls) = let rest = matching h ls in if h' == h then t ∷ rest else rest

  -- For each right row, the left rows of its hash.
  unfoldable pub nested : List (ColumnCatalog D (Expr D)) → Hashed D → Hashed D → List (Row D)
  unfolding matching
  nested cols ls [] = []
  nested cols ls ((h, t) ∷ rs) = map (joined cols t) (matching h ls) ++ nested cols ls rs

  -- The columns of the first row of each side.
  unfoldable pub first_columns :
      Hashed D → List (ColumnCatalog D (Expr D)) → List (ColumnCatalog D (Expr D))
  unfolding columns_filling
  first_columns [] cols = cols
  first_columns ((h, t) ∷ rest) cols = columns_filling t cols false

  abbrev pub rows_of : {K : Type 0} → Hashed D → Stream K D
  rows_of [] = []
  rows_of ((h, t) ∷ rest) = ok t ∷ rows_of rest

  unfoldable pushes : Hashed D → List (ℕ × List (Row D)) → List (ℕ × List (Row D))
  unfolding push_tuple
  pushes [] left_map = left_map
  pushes ((h, t) ∷ ls) left_map = pushes ls (push_tuple h t left_map)

  together : Option (List (Row D)) → List (Row D) → Option (List (Row D))
  together o [] = o
  together none (t ∷ ts) = some (t ∷ ts)
  together (some xs) (t ∷ ts) = some (xs ++ (t ∷ ts))

  together-snoc :
      (o : Option (List (Row D))) (t : Row D) (ts : List (Row D))
      → together (together o (t ∷ [])) ts ≡ together o (t ∷ ts)
  unfolding together
  together-snoc none t [] = refl
  together-snoc none t (u ∷ ts) = refl
  together-snoc (some xs) t [] = refl
  together-snoc (some xs) t (u ∷ ts) = ap some (append_assoc xs (t ∷ []) (u ∷ ts))

  get_tuples-push_tuple :
      (h0 h : ℕ) (t : Row D) (left_map : List (ℕ × List (Row D)))
      → get_tuples (push_tuple h0 t left_map) h
        ≡ (if h0 == h then together (get_tuples left_map h) (t ∷ []) else get_tuples left_map h)
  unfolding get_tuples push_tuple together
  get_tuples-push_tuple h0 h t [] = refl
  get_tuples-push_tuple h0 h t ((h', ts) ∷ left_map) = elim (Bool-cases (h' == h0)) [
    | inl e ↦
        rw (e, (==_iff h' h0).0 e)
          (elim (Bool-cases (h0 == h)) [ inl f ↦ rw f refl | inr f ↦ rw f refl ])
    | inr e ↦ rw e (elim (Bool-cases (h' == h)) [
      | inl f ↦ elim (Bool-cases (h0 == h)) [
        | inl g ↦ absurd (ground arith)
        | inr g ↦ rw (f, g) refl
      ]
      | inr f ↦ rw (f, get_tuples-push_tuple h0 h t left_map) refl
    ])
  ]

  get_tuples-pushes :
      (ls : Hashed D) (left_map : List (ℕ × List (Row D))) (h : ℕ)
      → get_tuples (pushes ls left_map) h ≡ together (get_tuples left_map h) (matching h ls)
  unfolding pushes matching together
  get_tuples-pushes [] left_map h = refl
  get_tuples-pushes ((h0, t) ∷ ls) left_map h = elim (Bool-cases (h0 == h)) [
    | inl e ↦
        rw
          (
            get_tuples-pushes ls (push_tuple h0 t left_map) h,
            get_tuples-push_tuple h0 h t left_map,
            e,
          )
          (together-snoc (get_tuples left_map h) t (matching h ls))
    | inr e ↦
        rw
          (
            get_tuples-pushes ls (push_tuple h0 t left_map) h,
            get_tuples-push_tuple h0 h t left_map,
            e,
          )
          refl
  ]

  found_lem : (ls : Hashed D) (h : ℕ) → get_tuples (pushes ls []) h ≡ together none (matching h ls)
  unfolding get_tuples
  found_lem ls h = get_tuples-pushes ls [] h

  inner_rows :
      (cols : List (ColumnCatalog D (Expr D))) (t : Row D) (ts : List (Row D))
      → join_tuples inner cols (together none ts) t ≡ ok (map (joined cols t) ts)
  unfolding join_tuples together
  inner_rows cols t [] = refl
  inner_rows cols t (u ∷ ts) = refl

  map_ok-append :
      {K : Type 0} (xs ys : List (Row D))
      → map {B = Outcome (ExecutorError K) (Row D)} ok xs ++ map ok ys ≡ map ok (xs ++ ys)
  map_ok-append [] ys = refl
  map_ok-append (t ∷ xs) ys = ap (λ zs. ok t ∷ zs) (map_ok-append xs ys)

module _ {D : Type 0} (hash_one : List (DataValue D) → ℕ) (x : External D) (m : Machine D) where
  -- The hashes are those of the keys of the rows.
  unfoldable pub IsHashed : List (Expr D) → Hashed D → Type 0
  unfolding hash_row
  IsHashed keys = All (λ p. hash_row hash_one x m keys p.1 ≡ ok p.0)

  build_rest :
      (K : Type 0) (keys : List (Expr D)) (nullable : Bool) (left_map : List (ℕ × List (Row D)))
      (cols : List (ColumnCatalog D (Expr D))) (ls : Hashed D)
      → IsHashed keys ls
      → build_loop hash_one x m {K = K} keys nullable left_map cols true (rows_of ls)
        ≡ ok (pushes ls left_map, cols)
  unfolding build_loop pushes IsHashed
  build_rest K keys nullable left_map cols [] hs = refl
  build_rest K keys nullable left_map cols ((h, t) ∷ ls) hs =
      rw hs.0 (build_rest K keys nullable (push_tuple h t left_map) cols ls hs.1)

  build_all :
      (K : Type 0) (keys : List (Expr D)) (ls : Hashed D)
      → IsHashed keys ls
      → build_loop hash_one x m {K = K} keys false [] [] false (rows_of ls)
        ≡ ok (pushes ls [], first_columns ls [])
  unfolding build_loop pushes IsHashed first_columns
  build_all K keys [] hs = refl
  build_all K keys ((h, t) ∷ ls) hs =
      rw hs.0 (build_rest K keys false (push_tuple h t []) (columns_filling t [] false) ls hs.1)

  probed :
      (keys : List (Expr D)) (ls : Hashed D) (p : Probe D) (h : ℕ) (t : Row D)
      → hash_row hash_one x m keys t ≡ ok h
      → (used_set : List ℕ) × (probe hash_one x m keys inner none (pushes ls []) p t
          ≡ ok (
            map
                (joined
                  (if p.right_init_flag
                    then p.join_columns
                    else columns_filling t p.join_columns false)
                  t)
                (matching h ls),
            record {
              join_columns =
                  if p.right_init_flag
                  then p.join_columns
                  else columns_filling t p.join_columns false;
              right_init_flag = true;
              used_set = used_set;
            },
          ))
  unfolding probe joins_nullable
  probed keys ls p h t e = (
    used (together none (matching h ls)) h p.used_set,
    rw
        (
          e,
          found_lem ls h,
          inner_rows
              (if p.right_init_flag then p.join_columns else columns_filling t p.join_columns false)
              t (matching h ls),
        )
        refl,
  )

  probe_rest :
      (K : Type 0) (keys : List (Expr D)) (ls : Hashed D) (cols : List (ColumnCatalog D (Expr D)))
      (used_set : List ℕ) (rs : Hashed D)
      → IsHashed keys rs
      → probe_loop hash_one x m {K = K} keys inner none
          (pushes ls [])
          (record { join_columns = cols; right_init_flag = true; used_set = used_set })
          (rows_of rs)
        ≡ map ok (nested cols ls rs)
  unfolding probe_loop IsHashed nested
  probe_rest K keys ls cols used_set [] hs = refl
  probe_rest K keys ls cols used_set ((h, t) ∷ rs) hs =
      let (used', e) =
        probed keys ls (record { join_columns = cols; right_init_flag = true; used_set = used_set })
          h t hs.0 in
      rw (e, probe_rest K keys ls cols used' rs hs.1)
        (map_ok-append (map (joined cols t) (matching h ls)) (nested cols ls rs))

  probe_all :
      (K : Type 0) (keys : List (Expr D)) (ls rs : Hashed D)
      (cols : List (ColumnCatalog D (Expr D)))
      → IsHashed keys rs
      → probe_loop hash_one x m {K = K} keys inner none
          (pushes ls [])
          (record { join_columns = cols; right_init_flag = false; used_set = [] })
          (rows_of rs)
        ≡ map ok (nested (first_columns rs cols) ls rs)
  unfolding probe_loop IsHashed nested first_columns
  probe_all K keys ls [] cols hs = refl
  probe_all K keys ls ((h, t) ∷ rs) cols hs =
      let (used_set, e) =
        probed keys ls (record { join_columns = cols; right_init_flag = false; used_set = [] }) h t
          hs.0 in
      rw (e, probe_rest K keys ls (columns_filling t cols false) used_set rs hs.1)
        (map_ok-append (map (joined (columns_filling t cols false) t) (matching h ls))
          (nested (columns_filling t cols false) ls rs))

  -- Where the keys of all rows evaluate, an inner hash join without a further condition yields, for each
  -- right row in order, its pairs with the left rows of the same hash, in their order.
  pub execute_hash_join_lem :
      (K : Type 0) (on : List (Expr D × Expr D)) (ls rs : Hashed D)
      → IsHashed (map (λ k. k.0) on) ls
      → IsHashed (map (λ k. k.1) on) rs
      → execute_hash_join hash_one x m {K = K} (on_keys on none) inner (rows_of ls) (rows_of rs)
        ≡ map ok (nested (first_columns rs (first_columns ls [])) ls rs)
  unfolding execute_hash_join join_on joins_nullable
  execute_hash_join_lem K on ls rs hl hr =
      rw (build_all K (map (λ k. k.0) on) ls hl)
        (probe_all K (map (λ k. k.1) on) ls rs (first_columns ls []) hr)
