-- ===== src/Tests/Tokens.antt =====
-- Texts of statements and their tokens.
use open_mem_db.Prelude.{ℕ, ◌≡◌, ◌⊎◌, refl, String, Option, some, List, [], ◌∷◌, map, arith}
use open_mem_db.Sql.Token
use open_mem_db.Sql.Tokenizer.{
  Tokens, tokens, exception, push, tokenize, tokens_from, symbol_pair, name_pair, scan_char,
  scan_number, scan_integer, scan_float, scan_date, safe_advance, check_date_format, integer_value,
  span,
}
use open_mem_db.Sql.Tokenizer.Total.{tokenize_ends}
use open_mem_db.Sql.Tokenizer.Dates.{AllDateless, tokenize-AllDateless}
use open_mem_db.Sql.Tokenizer.Expected.{
  Word, keyword, name, number, sign, word_where, word_and, word_null, less, semicolon, pair_of,
}
use open_mem_db.Sql.Tokenizer.Words.{eq_pair, tokenize-print, tokenize-symbol_eq}

abbrev zero_float : String → Option ℕ
zero_float s = some 0

abbrev clause : List Word
clause =
    keyword word_where
    ∷ name "a" "1"
    ∷ sign less
    ∷ number "4" "2"
    ∷ keyword word_and
    ∷ keyword word_null
    ∷ sign semicolon
    ∷ []

tokenize-print_example :
    tokenize zero_float "WHERE a1 < 42 AND NULL ; " ≡ tokens (map pair_of clause)
unfolding Token.is_sql_alphabetic_char Token.is_sql_identifier_char Token.is_sql_numeric_char
tokenize-print_example =
    tokenize-print zero_float clause
      (tt, ((refl, refl, refl), (tt, ((refl, refl, omega arith), (tt, (tt, (tt, tt)))))))

tokenize-symbol_eq_example :
    tokenize zero_float "<=7"
    ≡ push (symbol_pair b'<' "=7") (push eq_pair (tokens_from zero_float 2 eq_pair.token "7"))
unfolding Token.is_sql_symbol_char
tokenize-symbol_eq_example = tokenize-symbol_eq zero_float "<" "7" refl

-- The types of the tokens of a comparison
abbrev types : Tokens → List Token.TokenType
types (tokens ts) = map (λ p. p.token_type) ts
types t = []

split_comparison :
    types (tokenize zero_float "a <= 7")
    ≡ Token.tk_id ∷ Token.tk_le ∷ Token.tk_eq ∷ Token.tk_integer ∷ []
unfolding tokenize tokens_from scan_char span scan_number scan_integer scan_float scan_date
    integer_value name_pair symbol_pair safe_advance Token.find_keyword Token.is_sql_alphabetic_char
    Token.is_sql_identifier_char Token.is_sql_numeric_char Token.is_sql_symbol_char
split_comparison = refl

-- A number with a fraction is cut at the dot.
split_fraction :
    types (tokenize zero_float "1.5") ≡ Token.tk_float ∷ Token.tk_dot ∷ Token.tk_integer ∷ []
unfolding tokenize tokens_from scan_char span scan_number scan_integer scan_float scan_date
    integer_value name_pair symbol_pair safe_advance Token.find_keyword Token.is_sql_alphabetic_char
    Token.is_sql_identifier_char Token.is_sql_numeric_char Token.is_sql_symbol_char
split_fraction = refl

-- A date is no token.
split_date :
    types (tokenize zero_float "2016-01-02")
    ≡ Token.tk_illegal ∷ Token.tk_illegal ∷ Token.tk_illegal ∷ Token.tk_illegal ∷ Token.tk_integer
      ∷ []
unfolding tokenize tokens_from scan_char span scan_number scan_integer scan_float scan_date
    integer_value name_pair symbol_pair safe_advance Token.find_keyword Token.is_sql_alphabetic_char
    Token.is_sql_identifier_char Token.is_sql_numeric_char Token.is_sql_symbol_char
    check_date_format
split_date = refl

tokenize_ends_example :
    ((ts : List Token.TokenPair) × (tokenize zero_float "DROP TABLE t;" ≡ tokens ts))
    ⊎ (tokenize zero_float "DROP TABLE t;" ≡ exception)
tokenize_ends_example = tokenize_ends zero_float "DROP TABLE t;"

tokenize-AllDateless_example : AllDateless (tokenize zero_float "2016-01-02")
tokenize-AllDateless_example = tokenize-AllDateless zero_float "2016-01-02"
