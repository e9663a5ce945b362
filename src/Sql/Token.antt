-- ===== src/Sql/Token.antt =====
-- database/source/sql/common.cc and database/include/sql/common.h: the classes of characters and
-- strnicmp; database/include/sql/omdb_parser.h and setupTokenMappings of
-- database/source/sql/parser/omdb_parser.cc: the tokens and the keywords. The numbers of the token
-- types come from the generated parser; they are constructors here.
use Prim.Native.Nat.{bit_and, bit_or}
use open_mem_db.Prelude.{
  ℕ, String, Bool, not, Option, none, some, List, [], ◌∷◌, ◌++◌, ◌==◌, str_eq, if◌then◌else◌,
  replicate, get_elem?,
}
use open_mem_db.Expr.{TokenData}

-- enum SQLAsciiUsage
abbrev pub sql_alpha : ℕ
sql_alpha = 0x2

abbrev pub sql_digit : ℕ
sql_digit = 0x4

abbrev pub sql_alnum : ℕ
sql_alnum = 0x6

abbrev pub sql_ident : ℕ
sql_ident = 0x40

abbrev pub sql_symbol : ℕ
sql_symbol = 0x80

abbrev row : ℕ → ℕ → ℕ → ℕ → ℕ → ℕ → ℕ → ℕ → List ℕ
row a b c d e f g h = a ∷ b ∷ c ∷ d ∷ e ∷ f ∷ g ∷ h ∷ []

-- sql_ascii_map, a line of the table in each row; the last sixteen lines are alike.
unfoldable pub sql_ascii_map : List ℕ
sql_ascii_map =
    row 0x00 0x00 0x00 0x00 0x00 0x00 0x00 0x00
    ++ (row 0x00 0x01 0x01 0x01 0x01 0x01 0x00 0x00
        ++ (row 0x00 0x00 0x00 0x00 0x00 0x00 0x00 0x00
            ++ (row 0x00 0x00 0x00 0x00 0x00 0x00 0x00 0x00
                ++ (row 0x01 0x80 0x00 0x00 0x40 0x00 0x00 0x00
                    ++ (row 0x80 0x80 0x80 0x80 0x80 0x80 0x80 0x80
                        ++ (row 0x0c 0x0c 0x0c 0x0c 0x0c 0x0c 0x0c 0x0c
                            ++ (row 0x0c 0x0c 0x80 0x80 0x80 0x80 0x80 0x00
                                ++ (row 0x00 0x0a 0x0a 0x0a 0x0a 0x0a 0x0a 0x02
                                    ++ (row 0x02 0x02 0x02 0x02 0x02 0x02 0x02 0x02
                                        ++ (row 0x02 0x02 0x02 0x02 0x02 0x02 0x02 0x02
                                            ++ (row 0x02 0x02 0x02 0x00 0x00 0x00 0x00 0x40
                                                ++ (row 0x00 0x2a 0x2a 0x2a 0x2a 0x2a 0x2a 0x22
                                                    ++ (row 0x22 0x22 0x22 0x22 0x22 0x22 0x22 0x22
                                                        ++ (row 0x22 0x22 0x22 0x22 0x22 0x22 0x22
                                                            0x22
                                                            ++ (row 0x22 0x22 0x22 0x00 0x00 0x00
                                                            0x00 0x00
                                                            ++ replicate 128 0x40)))))))))))))))

-- The class of a character. One of several bytes has only bytes from 0x80 on, which are alike.
unfoldable pub class_of : ℕ → ℕ
unfolding sql_ascii_map
class_of ch = elim (get_elem? sql_ascii_map ch) [ none ↦ 0x40 | some c ↦ c ]

abbrev has : ℕ → ℕ → Bool
has c flags = not (bit_and c flags == 0)

-- isSQLIdentifierChar
unfoldable pub is_sql_identifier_char : ℕ → Bool
unfolding class_of
is_sql_identifier_char ch = has (class_of ch) (bit_or sql_ident sql_alnum)

-- isSQLAlphabeticChar
unfoldable pub is_sql_alphabetic_char : ℕ → Bool
unfolding class_of
is_sql_alphabetic_char ch = has (class_of ch) sql_alpha

-- isSQLSymbolChar
unfoldable pub is_sql_symbol_char : ℕ → Bool
unfolding class_of
is_sql_symbol_char ch = has (class_of ch) sql_symbol

-- isSQLNumericChar
unfoldable pub is_sql_numeric_char : ℕ → Bool
unfolding class_of
is_sql_numeric_char ch = has (class_of ch) sql_digit

-- The TK_ constants that the tokenizer names
pub data TokenType : Type 0 where
  tk_illegal tk_id tk_float tk_time tk_date tk_integer : TokenType
  tk_lparen tk_rparen tk_semicolon tk_comma tk_dot tk_asterisk tk_eq tk_ne tk_not : TokenType
  tk_le tk_lt tk_ge tk_gt : TokenType
  tk_create tk_drop tk_select tk_update tk_insert tk_into tk_delete tk_table tk_as : TokenType
  tk_where tk_from tk_all tk_distinct tk_auto_increment tk_null tk_default tk_and tk_or : TokenType
  tk_values tk_set : TokenType

-- struct TokenPair: the pointer is none where it is null. `again` says that it is the pointer of the
-- pair pushed before, which the data do not show.
pub record TokenPair : Type 0 where
  pub token : Option TokenData
  pub again : Bool
  pub token_type : TokenType

-- setupTokenMappings
abbrev pub keywords : List (String × TokenType)
keywords =
    ("CREATE", tk_create)
    ∷ ("DROP", tk_drop)
    ∷ ("SELECT", tk_select)
    ∷ ("UPDATE", tk_update)
    ∷ ("INSERT", tk_insert)
    ∷ ("INTO", tk_into)
    ∷ ("DELETE", tk_delete)
    ∷ ("TABLE", tk_table)
    ∷ ("AS", tk_as)
    ∷ ("WHERE", tk_where)
    ∷ ("FROM", tk_from)
    ∷ ("ALL", tk_all)
    ∷ ("DISTINCT", tk_distinct)
    ∷ ("AUTO_INCREMENT", tk_auto_increment)
    ∷ ("NOT", tk_not)
    ∷ ("NULL", tk_null)
    ∷ ("DEFAULT", tk_default)
    ∷ ("AND", tk_and)
    ∷ ("OR", tk_or)
    ∷ ("VALUES", tk_values)
    ∷ ("SET", tk_set)
    ∷ []

unfoldable pub lookup_keyword : String → List (String × TokenType) → Option TokenType
lookup_keyword s [] = none
lookup_keyword s ((k, t) ∷ m) = if str_eq k s then some t else lookup_keyword s m

-- keywords.find
unfoldable pub find_keyword : String → Option TokenType
unfolding lookup_keyword
find_keyword s = lookup_keyword s keywords
