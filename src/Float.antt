-- ===== src/Float.antt =====
-- What the source does with a `float64`: literals, conversions, arithmetic and comparisons. The
-- language's floating-point arithmetic is a parameter of the model, a type with an instance of
-- `Float64`; `IsOrdered` names the facts of IEEE 754 on which theorems rest. `Whole` meets them.
pub mod Whole
pub mod Defs
pub use Defs.*
