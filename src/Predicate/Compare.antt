-- ===== src/Predicate/Compare.antt =====
-- What a comparison with a stored cell decides.
use open_mem_db.Prelude.{◌≡◌, Bool, false, not, ◌&&◌, ◌||◌, arith, ◌==◌}
use open_mem_db.Types.{TervelData, Fits, pack, bit}
use open_mem_db.Expr.{ExpressionOperation, equals, not_equals}
use open_mem_db.Sql.Boolean.{is_true}
use open_mem_db.Predicate.{single, evaluate_operation}

-- All four fields agree.
abbrev pub same_fields : TervelData → TervelData → Bool
same_fields a b =
    a.tervel_status == b.tervel_status
    && a.type == b.type
    && bit a.null == bit b.null
    && a.data_value == b.data_value

pub pack_injective : (a b : TervelData) → Fits a → Fits b → (pack a == pack b) ≡ same_fields a b
unfolding pack
pack_injective a b fa fb = ground arith

-- When a comparison is true, said without the tri-state values.
abbrev pub holds : ExpressionOperation → TervelData → TervelData → Bool
holds equals a b = not (a.null || b.null) && same_fields a b
holds not_equals a b = not (a.null || b.null) && not (same_fields a b)
holds _ a b = false

-- For values within their bit-fields, an equality is true exactly if neither is null and all
-- fields agree; an inequality exactly if neither is null and some field differs;
-- and no other operation is ever true.
pub evaluate_operation-holds :
    (op : ExpressionOperation) (a b : TervelData)
    → Fits a
    → Fits b
    → is_true (evaluate_operation op (single a) (single b)) ≡ holds op a b
unfolding evaluate_operation is_true
evaluate_operation-holds equals a b fa fb = ground (arith, pack_injective a b fa fb)
evaluate_operation-holds not_equals a b fa fb = ground (arith, pack_injective a b fa fb)
evaluate_operation-holds _ a b fa fb = ground arith
