-- ===== src/Compute/Plain.antt =====
-- A concrete machine for src/expression/value_compute.rs, with one float.
use kip_sql.Prelude.{none}
use kip_sql.Value.Plain.{plain_conversions}
use kip_sql.Compute.{Machine}

abbrev pub machine : Machine Unit
machine = record {
  conversions = plain_conversions;
  neg_f32 = λ f. f;
  neg_f64 = λ f. f;
  add_f32 = λ f g. f;
  sub_f32 = λ f g. f;
  mul_f32 = λ f g. f;
  add_f64 = λ f g. f;
  sub_f64 = λ f g. f;
  mul_f64 = λ f g. f;
  div_f64 = λ f g. f;
  compare_f32 = λ f g. none;
  compare_f64 = λ f g. none;
  is_match = λ p s. none;
}
