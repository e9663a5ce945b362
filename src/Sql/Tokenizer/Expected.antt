-- ===== src/Sql/Tokenizer/Expected.antt =====
-- The words of a statement's text and the tokens that they stand for, from the texts of the keywords,
-- the symbols and the places of the digits alone.
pub mod Laws
use Prim.Native.Char.{Char, code}
use open_mem_db.Prelude.{
  ℕ, ◌+◌, ◌*◌, ◌-◌, ◌^◌, ◌%◌, ◌<◌, ◌≡◌, refl, String, Bool, true, false, ◌||◌, Option, none, some,
  List, [], ◌∷◌, str_eq,
}
use open_mem_db.Types.{zeroed, null_data}
use open_mem_db.Expr.{
  TokenData, blank_token, token_of_text, get_operation, equals, lesser, greater, and, or,
}
use open_mem_db.Sql.Token
use open_mem_db.Sql.Tokenizer.{all, append, size, name_pair, symbol_pair}

pub data Keyword : Type 0 where
  word_create word_drop word_select word_update word_insert word_into : Keyword
  word_delete word_table word_as word_where word_from word_all : Keyword
  word_distinct word_auto_increment word_not word_null word_default word_and : Keyword
  word_or word_values word_set : Keyword

pub data Sign : Type 0 where
  lparen rparen semicolon comma dot asterisk equal exclamation less more : Sign

-- A keyword, a name, a number, or a symbol of one character
pub data Word : Type 0 where
  keyword : Keyword → Word
  name : Char → String → Word
  number : Char → String → Word
  sign : Sign → Word

abbrev pub keyword_text : Keyword → String
keyword_text word_create = "CREATE"
keyword_text word_drop = "DROP"
keyword_text word_select = "SELECT"
keyword_text word_update = "UPDATE"
keyword_text word_insert = "INSERT"
keyword_text word_into = "INTO"
keyword_text word_delete = "DELETE"
keyword_text word_table = "TABLE"
keyword_text word_as = "AS"
keyword_text word_where = "WHERE"
keyword_text word_from = "FROM"
keyword_text word_all = "ALL"
keyword_text word_distinct = "DISTINCT"
keyword_text word_auto_increment = "AUTO_INCREMENT"
keyword_text word_not = "NOT"
keyword_text word_null = "NULL"
keyword_text word_default = "DEFAULT"
keyword_text word_and = "AND"
keyword_text word_or = "OR"
keyword_text word_values = "VALUES"
keyword_text word_set = "SET"

abbrev pub sign_text : Sign → String
sign_text lparen = "("
sign_text rparen = ")"
sign_text semicolon = ";"
sign_text comma = ","
sign_text dot = "."
sign_text asterisk = "*"
sign_text equal = "="
sign_text exclamation = "!"
sign_text less = "<"
sign_text more = ">"

abbrev reserved : List String
reserved =
    "CREATE" ∷ "DROP" ∷ "SELECT" ∷ "UPDATE" ∷ "INSERT" ∷ "INTO" ∷ "DELETE" ∷ "TABLE" ∷ "AS"
    ∷ "WHERE" ∷ "FROM" ∷ "ALL" ∷ "DISTINCT" ∷ "AUTO_INCREMENT" ∷ "NOT" ∷ "NULL" ∷ "DEFAULT" ∷ "AND"
    ∷ "OR" ∷ "VALUES" ∷ "SET" ∷ []

-- Whether a text is that of a keyword.
abbrev pub is_one_of : String → List String → Bool
is_one_of s [] = false
is_one_of s (k ∷ ks) = str_eq k s || is_one_of s ks

abbrev pub is_reserved : String → Bool
is_reserved s = is_one_of s reserved

-- The number that digits write, each with its place.
abbrev pub value_of : String → ℕ
value_of String.[] = 0
value_of (String.◌∷◌ c s) = (code c - b'0') * 10 ^ size s + value_of s

abbrev pub text : Word → String
text (keyword k) = keyword_text k
text (name c s) = String.◌∷◌ c s
text (number c s) = String.◌∷◌ c s
text (sign g) = sign_text g

abbrev pub IsWord : Word → Type 0
IsWord (keyword k) = Unit
IsWord (name c s) =
    (Token.is_sql_alphabetic_char (code c) ≡ true)
    × (all Token.is_sql_identifier_char s ≡ true)
    × (is_reserved (String.◌∷◌ c s) ≡ false)
IsWord (number c s) =
    (Token.is_sql_numeric_char (code c) ≡ true)
    × (all Token.is_sql_numeric_char s ≡ true)
    × (value_of (String.◌∷◌ c s) < 2 ^ 63)
IsWord (sign g) = Unit

-- A pair with a token of its own
abbrev fresh : Token.TokenType → TokenData → Token.TokenPair
fresh t tok = record { token = some tok; again = false; token_type = t }

abbrev plain : Token.TokenType → String → Token.TokenPair
plain t s = fresh t (record blank_token { text = s })

abbrev pub keyword_pair : Keyword → Token.TokenPair
keyword_pair word_create = plain Token.tk_create "CREATE"
keyword_pair word_drop = plain Token.tk_drop "DROP"
keyword_pair word_select = plain Token.tk_select "SELECT"
keyword_pair word_update = plain Token.tk_update "UPDATE"
keyword_pair word_insert = plain Token.tk_insert "INSERT"
keyword_pair word_into = plain Token.tk_into "INTO"
keyword_pair word_delete = plain Token.tk_delete "DELETE"
keyword_pair word_table = plain Token.tk_table "TABLE"
keyword_pair word_as = plain Token.tk_as "AS"
keyword_pair word_where = plain Token.tk_where "WHERE"
keyword_pair word_from = plain Token.tk_from "FROM"
keyword_pair word_all = plain Token.tk_all "ALL"
keyword_pair word_distinct = plain Token.tk_distinct "DISTINCT"
keyword_pair word_auto_increment = plain Token.tk_auto_increment "AUTO_INCREMENT"
keyword_pair word_not = plain Token.tk_not "NOT"
keyword_pair word_null =
    fresh Token.tk_null (record blank_token { text = "NULL"; is_value = true; value = null_data })
keyword_pair word_default = plain Token.tk_default "DEFAULT"
keyword_pair word_and =
    fresh Token.tk_and (record blank_token { text = "AND"; is_operation = true; operation = and })
keyword_pair word_or =
    fresh Token.tk_or (record blank_token { text = "OR"; is_operation = true; operation = or })
keyword_pair word_values = plain Token.tk_values "VALUES"
keyword_pair word_set = plain Token.tk_set "SET"

abbrev pub sign_pair : Sign → Token.TokenPair
sign_pair lparen = plain Token.tk_lparen "("
sign_pair rparen = plain Token.tk_rparen ")"
sign_pair semicolon = plain Token.tk_semicolon ";"
sign_pair comma = plain Token.tk_comma ","
sign_pair dot = plain Token.tk_dot "."
sign_pair asterisk = plain Token.tk_asterisk "*"
sign_pair equal =
    fresh Token.tk_eq (record blank_token { text = "="; is_operation = true; operation = equals })
sign_pair exclamation = plain Token.tk_not "!"
sign_pair less =
    fresh Token.tk_lt (record blank_token { text = "<"; is_operation = true; operation = lesser })
sign_pair more =
    fresh Token.tk_gt (record blank_token { text = ">"; is_operation = true; operation = greater })

-- The pair that stands for a word: the type code of BIG_INT is 3, and 57 bits of a number are kept.
unfoldable pub pair_of : Word → Token.TokenPair
pair_of (keyword k) = keyword_pair k
pair_of (name c s) = plain Token.tk_id (String.◌∷◌ c s)
pair_of (number c s) = fresh Token.tk_integer (record blank_token {
  text = String.◌∷◌ c s;
  is_value = true;
  value = record zeroed { type = 3; data_value = value_of (String.◌∷◌ c s) % 2 ^ 57 };
})
pair_of (sign g) = sign_pair g
