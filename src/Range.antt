-- ===== src/Range.antt =====
-- src/expression/simplify.rs: the ranges of a column that a condition selects, and how the ranges
-- under one `and` or one `or` are brought together. `V` is the type of the values, and a
-- `Comparison` is what the code uses of them.
pub mod Meaning
pub mod And
pub mod Exact
pub mod Union
pub mod Merge
pub mod Extremes
pub mod Or
pub mod Rearrange
pub mod Dropped
pub mod Covers
pub mod Values
mod Tests
use kip_sql.Prelude.{
  ℕ, Bool, true, false, not, ◌&&◌, Option, none, some, List, [], ◌∷◌, ◌++◌, map, Ordering, then_cmp,
  reverse_cmp, is_lt, is_gt, leb, if◌then◌else◌,
}
use kip_sql.Prelude.Sort.{sort_by}
use kip_sql.Prelude.Outcome.{Outcome, ok, err, panic, ◌>>=◌}
use kip_sql.Types.{TypeError, invalid_type}

-- `std::collections::Bound`.
pub data Bound (V : Type 0) : Type 0 where
  included : V → Bound V
  excluded : V → Bound V
  unbounded : Bound V

mutual
  pub data ConstantBinary (V : Type 0) : Type 0 where
    scope : Bound V → Bound V → ConstantBinary V
    eq : V → ConstantBinary V
    not_eq : V → ConstantBinary V
    and_of : Binaries V → ConstantBinary V
    or_of : Binaries V → ConstantBinary V

  -- `Vec<ConstantBinary>`.
  pub data Binaries (V : Type 0) : Type 0 where
    nil : Binaries V
    cons : ConstantBinary V → Binaries V → Binaries V

abbrev pub to_list : {V : Type 0} → Binaries V → List (ConstantBinary V)
to_list nil = []
to_list (cons b bs) = b ∷ to_list bs

abbrev pub of_list : {V : Type 0} → List (ConstantBinary V) → Binaries V
of_list [] = nil
of_list (b ∷ bs) = cons b (of_list bs)

-- `PartialOrd` and `PartialEq` of the values.
pub record Comparison (V : Type 0) : Type 0 where
  pub cmp : V → V → Option Ordering
  pub same : V → V → Bool

abbrev pub is_empty : {A : Type 0} → List A → Bool
is_empty [] = true
is_empty (_ ∷ _) = false

-- `unwrap_or(Ordering::Equal)`.
abbrev pub or_equal : Option Ordering → Ordering
or_equal none = Ordering.eq
or_equal (some o) = o

module _ {V : Type 0} (c : Comparison V) where
  -- The closure `op` of `bound_compared`.
  abbrev pub directed : Bool → Ordering → Ordering
  directed true order = order
  directed false order = reverse_cmp order

  abbrev pub then_some : Ordering → Option Ordering → Option Ordering
  then_some second none = none
  then_some second (some order) = some (then_cmp order second)

  unfoldable pub bound_compared : Bound V → Bound V → Bool → Option Ordering
  bound_compared unbounded unbounded is_min = some Ordering.eq
  bound_compared unbounded _ is_min = some (directed is_min Ordering.lt)
  bound_compared _ unbounded is_min = some (directed is_min Ordering.gt)
  bound_compared (included left) (included right) is_min = c.cmp left right
  bound_compared (included left) (excluded right) is_min =
      then_some (directed is_min Ordering.lt) (c.cmp left right)
  bound_compared (excluded left) (excluded right) is_min = c.cmp left right
  bound_compared (excluded left) (included right) is_min =
      then_some (directed is_min Ordering.gt) (c.cmp left right)

  -- `HashSet::insert` and `HashSet::remove`, on a list without duplicates.
  abbrev pub contains : List V → V → Bool
  contains [] v = false
  contains (w ∷ ws) v = if c.same w v then true else contains ws v

  unfoldable pub insert : List V → V → List V
  insert ws v = if contains ws v then ws else v ∷ ws

  unfoldable pub remove : List V → V → List V
  remove [] v = []
  remove (w ∷ ws) v = let rest = remove ws v in if c.same w v then rest else w ∷ rest

  abbrev pub sort_op : ConstantBinary V → ℕ
  sort_op (scope _ _) = 3
  sort_op (not_eq _) = 2
  sort_op (eq _) = 1
  sort_op _ = 0

  -- The variables of the loop of `and_scope_aggregation`.
  pub record Aggregate : Type 0 where
    pub scope_min : Bound V
    pub scope_max : Bound V
    pub eq_set : List V

  abbrev pub lt_holds : Option Ordering → Bool
  lt_holds none = false
  lt_holds (some o) = is_lt o

  abbrev pub gt_holds : Option Ordering → Bool
  gt_holds none = false
  gt_holds (some o) = is_gt o

  -- One round of the loop.
  unfoldable pub and_step : Aggregate → ConstantBinary V → Outcome TypeError Aggregate
  unfolding bound_compared insert remove
  and_step a (scope min max) =
      if is_empty a.eq_set
      then ok (record {
        scope_min = if lt_holds (bound_compared a.scope_min min true) then min else a.scope_min;
        scope_max = if gt_holds (bound_compared a.scope_max max false) then max else a.scope_max;
        eq_set = a.eq_set;
      })
      else ok a
  and_step a (eq v) =
      ok (record { scope_min = a.scope_min; scope_max = a.scope_max; eq_set = insert a.eq_set v })
  and_step a (not_eq v) =
      ok (record { scope_min = a.scope_min; scope_max = a.scope_max; eq_set = remove a.eq_set v })
  and_step a _ = err invalid_type

  unfoldable pub and_fold : Aggregate → List (ConstantBinary V) → Outcome TypeError Aggregate
  and_fold a [] = ok a
  and_fold a (b ∷ bs) = and_step a b >>= λ a'. and_fold a' bs

  -- The order of the equal values; a pair that does not compare counts as equal.
  abbrev pub value_le : V → V → Bool
  value_le v w = not (is_gt (or_equal (c.cmp v w)))

  abbrev pub scope_or_none : Bound V → Bound V → List (ConstantBinary V)
  scope_or_none unbounded unbounded = []
  scope_or_none min max = scope min max ∷ []

  abbrev pub first_eq : List V → Aggregate → List (ConstantBinary V)
  first_eq (v ∷ _) a = eq v ∷ []
  first_eq [] a = scope_or_none a.scope_min a.scope_max

  abbrev pub key_le : ConstantBinary V → ConstantBinary V → Bool
  key_le a b = leb (sort_op a) (sort_op b)

  unfoldable pub and_scope_aggregation :
      List (ConstantBinary V) → Outcome TypeError (List (ConstantBinary V))
  and_scope_aggregation [] = ok []
  and_scope_aggregation (b ∷ bs) =
      and_fold (record { scope_min = unbounded; scope_max = unbounded; eq_set = [] })
        (sort_by key_le (b ∷ bs))
      >>= λ a. ok (first_eq (sort_by value_le a.eq_set) a)
