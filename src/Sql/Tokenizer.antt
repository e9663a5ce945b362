-- ===== src/Sql/Tokenizer.antt =====
-- tokenize of database/source/sql/parser/omdb_parser.cc, with safe_advance of
-- database/include/util/omdb_stdlib.h and checkDateFormat of database/source/util/common.cc. The end
-- of the text reads as a zero, and no allocation fails. The value of std::stof, as the int64_t that it
-- is converted to, is an argument.
pub mod Laws
pub mod Total
pub mod Dates
pub mod Expected
pub mod Words
use Prim.Native.Char.{Char, code}
use open_mem_db.Prelude.{
  ℕ, zero, suc, ◌+◌, ◌*◌, ◌-◌, ◌^◌, ◌%◌, ◌≡◌, refl, String, Bool, true, false, ◌&&◌, ◌||◌, Option,
  none, some, List, [], ◌∷◌, ◌++◌, ◌==◌, ltb, leb, str_eq, if◌then◌else◌,
}
use open_mem_db.Types.{big_int, float, zeroed, DateData, date_value}
use open_mem_db.Expr.{
  TokenData, blank_token, token_of_text, token_of_value, get_operation, ExpressionOperation, no_op,
  equals, not_equals, lesser, lesser_equals, greater, greater_equals,
}
use open_mem_db.Sql.Token

-- *(itr), and *(itr + 1) where the text is what follows
abbrev pub peek : String → ℕ
peek String.[] = 0
peek (String.◌∷◌ c s) = code c

abbrev pub drop_first : String → String
drop_first String.[] = String.[]
drop_first (String.◌∷◌ c s) = s

abbrev pub size : String → ℕ
size String.[] = 0
size (String.◌∷◌ c s) = suc (size s)

-- Whether every character passes a test.
abbrev pub all : (ℕ → Bool) → String → Bool
all p String.[] = true
all p (String.◌∷◌ c s) = p (code c) && all p s

-- A loop that moves `next` while a test holds: the characters that it passes, and the text after.
unfoldable pub span : (ℕ → Bool) → String → String × String
span p String.[] = (String.[], String.[])
span p (String.◌∷◌ c s) =
    let (front, rest) = span p s in
    if p (code c) then (String.◌∷◌ c front, rest) else (String.[], String.◌∷◌ c s)

-- safe_advance: the text passed, and whether the end came too early.
unfoldable pub safe_advance : ℕ → String → String × Bool
safe_advance zero s = (String.[], true)
safe_advance (suc n) String.[] = (String.[], false)
safe_advance (suc n) (String.◌∷◌ c s) =
    let (front, whole) = safe_advance n s in (String.◌∷◌ c front, whole)

abbrev pub append : String → String → String
append String.[] t = t
append (String.◌∷◌ c s) t = String.◌∷◌ c (append s t)

abbrev pub is_digit : ℕ → Bool
is_digit c = leb b'0' c && leb c b'9'

-- The loop of checkDateFormat, from an index on
unfoldable pub date_format_from : ℕ → ℕ → String → Bool
date_format_from zero i s = true
date_format_from (suc n) i String.[] = false
date_format_from (suc n) i (String.◌∷◌ c s) =
    (let rest = date_format_from n (suc i) s in
      (if (i == 4) || (i == 7) then code c == b'-' else is_digit (code c)) && rest)

-- checkDateFormat
unfoldable pub check_date_format : String → Bool
unfolding date_format_from
check_date_format s = date_format_from 10 0 s

-- The digits of a text as a number, with one read before.
unfoldable pub decimal : ℕ → String → ℕ
decimal n String.[] = n
decimal n (String.◌∷◌ c s) = decimal (10 * n + (code c - b'0')) s

-- std::stoll in base 16, of digits and letters x, after the prefix: up to the first x
unfoldable pub hexadecimal : ℕ → String → ℕ
hexadecimal n String.[] = n
hexadecimal n (String.◌∷◌ c s) =
    let more = hexadecimal (16 * n + (code c - b'0')) s in if code c == b'x' then n else more

abbrev pub has_x : String → Bool
has_x String.[] = false
has_x (String.◌∷◌ c s) = (code c == b'x') || has_x s

-- A prefix 0x counts where a digit follows.
abbrev after_prefix : String → String
after_prefix String.[] = String.[]
after_prefix (String.◌∷◌ a String.[]) = String.◌∷◌ a String.[]
after_prefix (String.◌∷◌ a (String.◌∷◌ b s)) =
    if (code a == b'0') && ((code b == b'x') && is_digit (peek s))
    then s
    else String.◌∷◌ a (String.◌∷◌ b s)

-- The value of an integer token: none is the exception std::out_of_range.
unfoldable pub integer_value : String → Option ℕ
unfolding decimal hexadecimal
integer_value s =
    let v = if has_x s then hexadecimal 0 (after_prefix s) else decimal 0 s in
    if ltb v (2 ^ 63) then some v else none

-- One round of the loop: nothing but a step, a pair pushed, or an exception.
pub data Scan : Type 0 where
  skipped : String → Scan
  found : Token.TokenPair → String → Scan
  thrown : Scan

-- The tokens of a text, an exception, or too little fuel
pub data Tokens : Type 0 where
  tokens : List Token.TokenPair → Tokens
  exception starved : Tokens

-- tokens.push_back, before what follows
abbrev pub push : Token.TokenPair → Tokens → Tokens
push p (tokens ts) = tokens (p ∷ ts)
push p exception = exception
push p starved = starved

abbrev pub pair : Token.TokenType → TokenData → Token.TokenPair
pair t tok = record { token = some tok; again = false; token_type = t }

-- A name or a keyword
unfoldable pub name_pair : String → Token.TokenPair
name_pair s = elim (Token.find_keyword s) [
  | none ↦ pair Token.tk_id (token_of_text s)
  | some t ↦ elim (get_operation s) [
    | no_op ↦ pair t (token_of_text s)
    | op ↦ pair t (record (token_of_text s) { is_operation = true; operation = op })
  ]
]

abbrev symbol : Token.TokenType → String → Token.TokenPair
symbol t s = pair t (record blank_token { text = s })

abbrev operator : Token.TokenType → String → ExpressionOperation → Token.TokenPair
operator t s op = pair t (record blank_token { text = s; is_operation = true; operation = op })

-- The switch on a symbol, with the text after it
unfoldable pub symbol_pair : ℕ → String → Token.TokenPair
symbol_pair c s =
    if c == b'('
    then symbol Token.tk_lparen "("
    else if c == b')'
    then symbol Token.tk_rparen ")"
    else if c == b';'
    then symbol Token.tk_semicolon ";"
    else if c == b','
    then symbol Token.tk_comma ","
    else if c == b'.'
    then symbol Token.tk_dot "."
    else if c == b'*'
    then symbol Token.tk_asterisk "*"
    else if c == b'='
    then operator Token.tk_eq "=" equals
    else if c == b'!'
    then if peek s == b'=' then operator Token.tk_ne "!=" not_equals else symbol Token.tk_not "!"
    else if c == b'<'
    then if peek s == b'='
      then operator Token.tk_le "<=" lesser_equals
      else operator Token.tk_lt "<" lesser
    else if c == b'>'
    then if peek s == b'='
      then operator Token.tk_ge ">=" greater_equals
      else operator Token.tk_gt ">" greater
    else symbol Token.tk_illegal "ILLEGAL"

-- std::string::substr
unfoldable pub substr : ℕ → ℕ → String → String
substr i zero s = String.[]
substr i (suc n) String.[] = String.[]
substr zero (suc n) (String.◌∷◌ c s) = String.◌∷◌ c (substr zero n s)
substr (suc i) (suc n) (String.◌∷◌ c s) = substr i (suc n) s

-- The token of a date: the type of its value stays zero.
unfoldable pub date_token : String → TokenData
unfolding decimal substr date_value
date_token s =
    let date : DateData = record {
      year = decimal 0 (substr 0 4 s) % 2 ^ 16;
      month = decimal 0 (substr 5 2 s) % 2 ^ 8;
      day = decimal 0 (substr 8 2 s) % 2 ^ 8;
    } in
    record (token_of_text s) {
      is_value = true;
      value = record zeroed { data_value = date_value date % 2 ^ 57 };
    }

module _ (stof : String → Option ℕ) where
  -- The case '.' of the switch: where no digit follows, the pair keeps the token that it had, and so
  -- two pairs have the same pointer.
  unfoldable pub scan_float : Option TokenData → String → String → Scan
  scan_float held text rest =
      let (digits, next) = span Token.is_sql_numeric_char rest in
      let token = append text digits in
      if Token.is_sql_numeric_char (peek (drop_first rest))
      then elim (stof token) [
        | none ↦ thrown
        | some v ↦ found (pair Token.tk_float (token_of_value token float v)) next
      ]
      else found (record { token = held; again = true; token_type = Token.tk_float }) rest

  -- The case '-' of the switch: the text goes on after the number, whatever the date.
  unfoldable pub scan_date : String → String → Scan
  scan_date text rest =
      let (front, whole) = safe_advance 5 rest in
      if whole && check_date_format (append text front)
      then found (pair Token.tk_date (date_token (append text front))) rest
      else found (pair Token.tk_illegal blank_token) rest

  -- The default of the switch
  unfoldable pub scan_integer : String → String → Scan
  scan_integer text rest = elim (integer_value text) [
    | none ↦ thrown
    | some v ↦ found (pair Token.tk_integer (token_of_value text big_int v)) rest
  ]

  -- The branch of a digit
  unfoldable pub scan_number : Option TokenData → Char → String → Scan
  scan_number held c s =
      let (more, rest) = span (λ ch. Token.is_sql_numeric_char ch || (ch == b'x')) s in
      let text = String.◌∷◌ c more in
      if peek rest == b'.'
      then scan_float held text rest
      else if peek rest == b':'
      then found (record { token = none; again = false; token_type = Token.tk_time }) rest
      else if peek rest == b'-'
      then scan_date text rest
      else scan_integer text rest

  -- A round of the loop at a character, with the token that `pair` holds
  unfoldable pub scan_char : Option TokenData → Char → String → Scan
  scan_char held c s =
      if Token.is_sql_alphabetic_char (code c)
      then (let (front, rest) = span Token.is_sql_identifier_char s in
          found (name_pair (String.◌∷◌ c front)) rest)
      else if Token.is_sql_numeric_char (code c)
      then scan_number held c s
      else if Token.is_sql_symbol_char (code c)
      then found (symbol_pair (code c) s) s
      else skipped s

  -- The loop on fuel
  unfoldable pub tokens_from : ℕ → Option TokenData → String → Tokens
  tokens_from zero held s = starved
  tokens_from (suc f) held String.[] = tokens []
  tokens_from (suc f) held (String.◌∷◌ c s) = elim (scan_char held c s) [
    | thrown ↦ exception
    | skipped rest ↦ tokens_from f held rest
    | found p rest ↦ push p (tokens_from f p.token rest)
  ]

  -- tokenize
  unfoldable pub tokenize : String → Tokens
  tokenize s = tokens_from (suc (size s)) none s
