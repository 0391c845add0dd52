-- ===== src/Lib.antt =====
-- KipSQL is a SQL database over a key-value store: a statement is parsed by a crate, bound to a
-- plan, rewritten by rules, and run by executors that read and write rows through a transaction.
-- This library models the values (src/types), the bytes and keys under which rows and indexes are
-- stored (src/types/tuple.rs, src/storage/table_codec.rs), the transaction over the store
-- (src/storage), the catalog of tables (src/catalog), expressions with their operators and ranges
-- (src/expression), the executors of queries and of statements that change rows
-- (src/execution/executor), and what rules make of operators (src/optimizer/rule).
--
-- How the parts interact: a scan of the transaction reads the entries between two keys and
-- decodes them by `deserialize_from`; filters, projections, joins and aggregations evaluate
-- expressions on the rows by `eval`, which uses `binary_op` and `cast`; the optimizer turns a
-- filter into ranges of an indexed column (`scope_aggregation`, `rearrange`), whose bounds
-- `to_index_key` turns into keys, and moves its conjuncts to the inputs of a join; insert, update
-- and delete write rows and index entries under the keys of the codec. So the order of values,
-- the order of keys and the answers of `binary_op` must agree, a scan must read its own table, a
-- range must not lose rows, and a rule must keep what a condition says.
--
--   Prelude: names of the libraries, Boolean tests, lists over native numbers, integers, bits,
--     byte strings, a stable sort, maps in the order of their keys, and `Outcome`, which is a
--     value, an error or a panic.
--   Types: src/types/mod.rs and src/types/errors.rs. Laws is on unified types.
--   Value: src/types/value.rs. Key has the primary and index keys (`to_primary_key`,
--     `to_index_key`, `encode_bytes`), Raw the stored bytes (`to_raw`, `from_raw`), Cast the
--     casts, Text the texts of integers and Booleans. Plain is a concrete form of the crates, for
--     tests.
--   Catalog: src/catalog/column.rs; Catalog.Table: src/catalog/table.rs; Catalog.Root:
--     src/catalog/root.rs.
--   Tuple: src/types/tuple.rs, `serialize_to` and `deserialize_from` of a row, with the bitmap of
--     its nulls.
--   Codec: src/storage/table_codec.rs and src/types/index.rs, the keys of a table and the bounds
--     of its scans.
--   Range: src/expression/simplify.rs, the ranges of a column that a condition selects. Meaning
--     says what a range selects; Values instantiates it with an INTEGER column.
--   Compute: src/expression/value_compute.rs, `unary_op` and `binary_op`.
--   Expression: src/expression/mod.rs and src/expression/agg.rs, `ScalarExpression` as `Expr`;
--     Names has the output column and its name, Eval src/expression/evaluator.rs.
--   Execute: src/execution/executor/dql. Query has the executors that look at one row, Groups the
--     aggregations with the accumulators of Aggregates, Join the hash join, Sort the sort, and
--     the root module the limit with the rule EliminateLimits of
--     src/optimizer/rule/pushdown_limit.rs. An executor is a function of the list that its input
--     yields.
--   Store: src/storage/mod.rs and src/storage/kip.rs. Methods, Reads, Scans and IndexScan have
--     the methods of `KipTransaction`, `KipIter` and `IndexIter`; a method takes the transaction
--     and gives its answer with the transaction behind it. Laws states what the store must do,
--     and Memory is a store that does it.
--   Statement: src/execution/executor/dml, the statements insert, update and delete as runs on a
--     transaction; Tables has src/execution/executor/ddl and the row builder of
--     src/types/tuple_builder.rs.
--   Optimizer: src/optimizer/rule/pushdown_predicates.rs, the conjuncts of a filter above a join.
--
-- Representation: a float is its bit pattern, a text its UTF-8 bytes, a decimal a value of a type
-- that is a parameter. What the code takes from crates (ordered_float, rust_decimal,
-- integer-encoding, chrono, bincode, regex, the store kip_db and its cache, the hash of ahash)
-- and the arithmetic of floats are fields of the records `External`, `Conversions`, `Machine`,
-- `Bincode`, `Kv` and `Cache`, and the argument `hash_one`; the laws that theorems ask of them
-- are the records `OrdersFloats`, `KeepsFixed` and `IsStore`. Integers are in the range of their
-- variant, and arithmetic wraps around, as in a release build. A mutable vector or an accumulator
-- is passed and returned; a hash set is a list without duplicates, and a hash map a list in the
-- order in which its keys were first met. The storage sees expressions through the record
-- `Projector`, which `scalar` fills.
--
-- Bounds and fuel: the loop of `encode_bytes` runs once for each started group of eight bytes,
-- and has fuel for one round more; `combine_numeric_types` calls itself once at most, and has
-- fuel for two calls; the digits of a number are read with one call for each unit of the number;
-- a scan of a table has fuel for one round more than the iterator has items; a scan of an index
-- takes its fuel as an argument. Every other loop is structural.
--
-- Not modelled: the conversion of expressions to ranges and their rewriting
-- (src/expression/simplify.rs from its second half), the plan graph and the other rules
-- (src/optimizer), the binder (src/binder), and COPY. Text output, the shell and the front end
-- (src/db.rs, src/main.rs) are input and output alone.
pub mod Prelude
pub mod Types
pub mod Value
pub mod Catalog
pub mod Tuple
pub mod Codec
pub mod Range
pub mod Compute
pub mod Expression
pub mod Execute
pub mod Store
pub mod Optimizer
pub mod Statement
