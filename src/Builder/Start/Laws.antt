-- ===== src/Builder/Start/Laws.antt =====
-- A CREATE TABLE statement, built column by column.
use open_mem_db.Prelude.{
  String, ◌≡◌, refl, if◌then◌else◌, sym, ap, ◌∙◌, true, Option, none, some, List, [], ◌∷◌, ◌++◌,
  map, append-nil, append_assoc,
}
use open_mem_db.Schema.{SqlColumn, SqlConstraint, SqlConstraintType}
use open_mem_db.Types.{
  TervelData, DataType, untyped, boolean, small_int, integer, big_int, float, date, time,
}
use open_mem_db.Expr.{TokenData, token_of_text}
use open_mem_db.Builder.{StatementBuilder, create_table_command}
use open_mem_db.Builder.Start.{
  token_value, add_column_constraint, add_column, get_sql_type, start_create_table,
}

-- A constraint of a column: its type, its token if it has one, and what the memory of the value holds
pub record ConstraintText : Type 0 where
  pub type : SqlConstraintType
  pub token : Option TokenData
  pub unset : TervelData

-- The name of a type in a statement
abbrev pub type_name : DataType → String
type_name untyped = "NONE"
type_name boolean = "BOOLEAN"
type_name small_int = "SMALLINT"
type_name integer = "INTEGER"
type_name big_int = "BIGINT"
type_name float = "FLOAT"
type_name date = "DATE"
type_name time = "TIME"

-- The type that a name gives: FLOAT is not one of the names that the builder knows.
abbrev pub known : DataType → DataType
known float = untyped
known t = t

-- One column of the statement: its constraints are read before it is added.
pub record ColumnText : Type 0 where
  pub name : TokenData
  pub type : DataType
  pub constraints : List ConstraintText

abbrev pub add_constraints : StatementBuilder → List ConstraintText → StatementBuilder
add_constraints b [] = b
add_constraints b (c ∷ cs) = add_constraints (add_column_constraint b c.type c.token c.unset) cs

-- The calls for the columns of a statement, in order.
abbrev pub add_columns : StatementBuilder → List ColumnText → Option StatementBuilder
add_columns b [] = some b
add_columns b (c ∷ cs) =
    elim (add_column (add_constraints b c.constraints) c.name (token_of_text (type_name c.type))) [
      | none ↦ none
      | some b' ↦ add_columns b' cs
    ]

-- The value that a constraint has: that of its token, if the token is a literal
abbrev pub literal_of : Option TokenData → TervelData → TervelData
literal_of none unset = unset
literal_of (some tok) unset = if tok.is_value then tok.value else unset

abbrev pub constraint_of : ConstraintText → SqlConstraint
constraint_of c = record { type = c.type; value = literal_of c.token c.unset }

abbrev pub column_of : ColumnText → SqlColumn
column_of c = record {
  name = c.name.text;
  type = known c.type;
  constraint = map constraint_of c.constraints;
}

-- The builder in the middle of the statement.
abbrev pub creating : StatementBuilder → String → List SqlColumn → StatementBuilder
creating b name columns = record b {
  started = true;
  valid = true;
  temp_constraints = [];
  statement = some (create_table_command (record { table_name = name; columns = columns }));
}

get_sql_type-type_name : (t : DataType) → get_sql_type (token_of_text (type_name t)).text ≡ known t
unfolding get_sql_type token_of_text
get_sql_type-type_name untyped = refl
get_sql_type-type_name boolean = refl
get_sql_type-type_name small_int = refl
get_sql_type-type_name integer = refl
get_sql_type-type_name big_int = refl
get_sql_type-type_name float = refl
get_sql_type-type_name date = refl
get_sql_type-type_name time = refl

value_lem : (v : Option TokenData) (unset : TervelData) → token_value unset v ≡ literal_of v unset
unfolding token_value
value_lem none unset = refl
value_lem (some tok) unset = refl

add_constraints_lem :
    (b : StatementBuilder) (cs : List ConstraintText)
    → add_constraints b cs
      ≡ record b { temp_constraints = b.temp_constraints ++ map constraint_of cs }
unfolding add_column_constraint token_value
add_constraints_lem b [] =
    ap (λ t. record b { temp_constraints = t }) (sym (append-nil b.temp_constraints))
add_constraints_lem b (c ∷ cs) =
    let same = value_lem c.token c.unset in
    add_constraints_lem (add_column_constraint b c.type c.token c.unset) cs
    ∙ ap (λ t. record b { temp_constraints = t })
        (rw (same) (append_assoc b.temp_constraints (constraint_of c ∷ []) (map constraint_of cs)))

add_columns_lem :
    (b : StatementBuilder) (name : String) (done : List SqlColumn) (cs : List ColumnText)
    → add_columns (creating b name done) cs ≡ some (creating b name (done ++ map column_of cs))
unfolding add_column token_of_text
add_columns_lem b name done [] = ap (λ t. some (creating b name t)) (sym (append-nil done))
add_columns_lem b name done (c ∷ cs) =
    let added : add_column (add_constraints (creating b name done) c.constraints) c.name
          (token_of_text (type_name c.type))
        ≡ some (creating b name (done ++ column_of c ∷ [])) =
      ap (λ b'. add_column b' c.name (token_of_text (type_name c.type)))
        (add_constraints_lem (creating b name done) c.constraints)
      ∙ ap
          (λ ty. some (
            creating b name (
              done
              ++ record {
                name = c.name.text;
                type = ty;
                constraint = map constraint_of c.constraints;
              }
                ∷ [])))
          (get_sql_type-type_name c.type) in
    rw (added, add_columns)
      (add_columns_lem b name (done ++ column_of c ∷ []) cs
        ∙ ap (λ t. some (creating b name t))
            (append_assoc done (column_of c ∷ []) (map column_of cs)))

-- From a builder with no constraints left over, the calls for a CREATE TABLE statement give its
-- command: every column in order, with the type that is named (FLOAT names none), and each with its
-- own constraints and with no other column's. A constraint has the value of its token if that is a
-- literal, and else whatever its memory held.
pub add_columns-start_create_table :
    (b : StatementBuilder) (name : TokenData) (cs : List ColumnText)
    → b.temp_constraints ≡ []
    → add_columns (start_create_table b name) cs ≡ some (creating b name.text (map column_of cs))
unfolding start_create_table
add_columns-start_create_table b name cs clear =
    ap (λ t. add_columns (record (creating b name.text []) { temp_constraints = t }) cs) clear
    ∙ add_columns_lem b name.text [] cs
