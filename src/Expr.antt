-- ===== src/Expr.antt =====
-- database/include/sql/statements/expression.h and parser/token.h with expression.cc: tokens, the
-- expression tree, its flags and the names of the operations.
use Prim.Native.Nat.{bit_and}
use open_mem_db.Prelude.{
  ℕ, ◌%◌, ◌^◌, String, Bool, true, false, not, List, [], ◌∷◌, ◌==◌, str_eq, if◌then◌else◌,
}
use open_mem_db.Types.{TervelData, DataType, type_code, zeroed, null_data}

-- enum ExpressionOperation
pub data ExpressionOperation : Type 0 where
  no_op equals not_equals lesser lesser_equals greater greater_equals within between and or :
      ExpressionOperation

-- struct TokenData. `table_name` and `column_name` count where `is_column` is set.
pub record TokenData : Type 0 where
  pub text : String
  pub is_value : Bool
  pub value : TervelData
  pub is_operation : Bool
  pub operation : ExpressionOperation
  pub is_column : Bool
  pub table_name : String
  pub column_name : String

-- TokenData(): the members that it leaves unset are zero here.
abbrev pub blank_token : TokenData
blank_token = record {
  text = "";
  is_value = false;
  value = zeroed;
  is_operation = false;
  operation = no_op;
  is_column = false;
  table_name = "";
  column_name = "";
}

-- TokenData(str): the text NULL is a value with no type.
unfoldable pub token_of_text : String → TokenData
token_of_text s =
    if str_eq s "NULL"
    then record blank_token { text = s; is_value = true; value = null_data }
    else record blank_token { text = s }

-- The four constructors for a number of a given type; the field `data_value` keeps 57 bits of the
-- pattern.
unfoldable pub token_of_value : String → DataType → ℕ → TokenData
token_of_value s t v = record blank_token {
  text = s;
  is_value = true;
  value = record zeroed { type = type_code t; data_value = v % 2 ^ 57 };
}

-- TokenData(str, table, column)
unfoldable pub token_of_column : String → String → String → TokenData
token_of_column s table column = record blank_token {
  text = s;
  is_column = true;
  table_name = table;
  column_name = column;
}

-- enum ExpressionFlags, a set of bits
abbrev pub flag_empty : ℕ
flag_empty = 0

abbrev pub flag_column : ℕ
flag_column = 1

abbrev pub flag_value : ℕ
flag_value = 2

abbrev pub flag_operation : ℕ
flag_operation = 4

abbrev pub flag_nested : ℕ
flag_nested = 8

-- isExprFlagContained
unfoldable pub is_expr_flag_contained : ℕ → ℕ → Bool
is_expr_flag_contained a b = not (bit_and a b == 0)

-- The members of struct Expression beside its two children.
pub record ExprInfo : Type 0 where
  pub op : ExpressionOperation
  pub flags : ℕ
  pub table_name : String
  pub table_column : String
  pub value : TervelData

-- struct Expression behind a pointer
pub data Expression : Type 0 where
  nullptr : Expression
  node : ExprInfo → Expression → Expression → Expression

-- Expression()
abbrev pub blank_info : ExprInfo
blank_info = record {
  op = no_op;
  flags = flag_empty;
  table_name = "";
  table_column = "";
  value = zeroed;
}

-- Expression(Token), for a token that is there
unfoldable pub info_of_token : TokenData → ExprInfo
info_of_token tok =
    if tok.is_column
    then record blank_info {
      flags = flag_column;
      table_name = tok.table_name;
      table_column = tok.column_name;
    }
    else if tok.is_value
    then record blank_info { flags = flag_value; value = tok.value }
    else record blank_info { flags = flag_operation; op = tok.operation }

abbrev pub leaf : TokenData → Expression
unfolding info_of_token
leaf tok = node (info_of_token tok) nullptr nullptr

-- createExpression of builder.cc
unfoldable pub create_expression : TokenData → TokenData → TokenData → Expression
unfolding info_of_token
create_expression op left right = node (info_of_token op) (leaf left) (leaf right)

-- operation_map, in the order of its keys
abbrev pub operation_map : List (String × ExpressionOperation)
operation_map =
    ("<", lesser)
    ∷ ("<=", lesser_equals)
    ∷ ("=", equals)
    ∷ (">", greater)
    ∷ (">=", greater_equals)
    ∷ ("AND", and)
    ∷ ("BETWEEN", between)
    ∷ ("IN", within)
    ∷ ("OR", or)
    ∷ []

lookup_operation : String → List (String × ExpressionOperation) → ExpressionOperation
lookup_operation s [] = no_op
lookup_operation s ((k, op) ∷ m) = if str_eq k s then op else lookup_operation s m

-- getOperation
unfoldable pub get_operation : String → ExpressionOperation
unfolding lookup_operation
get_operation s = lookup_operation s operation_map
