-- ===== src/Sql/Tokenizer/Expected/Laws.antt =====
-- The tokenizer's tables on the keywords, names, numbers and symbols.
use Prim.Native.Char.{Char, code}
use text.Mathlib.TextEquality.{eq_iff}
use native.Mathlib.Nat.{pow-succ'}
use mathlib.Core.Path.{subst}
use open_mem_db.Prelude.{
  ℕ, ◌+◌, ◌*◌, ◌-◌, ◌^◌, ◌≡◌, refl, sym, ap, ◌∙◌, String, true, false, none, List, [], ◌∷◌, str_eq,
  arith, map, Bool-cases, inl, inr,
}
use open_mem_db.Expr.{blank_token, token_of_text, get_operation}
use open_mem_db.Sql.Token
use open_mem_db.Sql.Tokenizer.{all, append, size, name_pair, symbol_pair, decimal, pair}
use open_mem_db.Sql.Tokenizer.Expected.{
  Keyword, Sign, name, pair_of, keyword_text, keyword_pair, sign_text, sign_pair, is_one_of,
  is_reserved, value_of, word_create, word_drop, word_select, word_update, word_insert, word_into,
  word_delete, word_table, word_as, word_where, word_from, word_all, word_distinct,
  word_auto_increment, word_not, word_null, word_default, word_and, word_or, word_values, word_set,
  lparen, rparen, semicolon, comma, dot, asterisk, equal, exclamation, less, more,
}

-- A keyword is a letter and characters of an identifier, and the tables know it.
pub name_pair-keyword_text :
    (k : Keyword)
    → (c : Char) × (s : String) × (keyword_text k ≡ String.◌∷◌ c s)
      × (Token.is_sql_alphabetic_char (code c) ≡ true)
      × (all Token.is_sql_identifier_char s ≡ true)
      × (name_pair (String.◌∷◌ c s) ≡ keyword_pair k)
unfolding name_pair Token.find_keyword get_operation token_of_text Token.is_sql_alphabetic_char
    Token.is_sql_identifier_char
name_pair-keyword_text word_create = ("C", "REATE", refl, refl, refl, refl)
name_pair-keyword_text word_drop = ("D", "ROP", refl, refl, refl, refl)
name_pair-keyword_text word_select = ("S", "ELECT", refl, refl, refl, refl)
name_pair-keyword_text word_update = ("U", "PDATE", refl, refl, refl, refl)
name_pair-keyword_text word_insert = ("I", "NSERT", refl, refl, refl, refl)
name_pair-keyword_text word_into = ("I", "NTO", refl, refl, refl, refl)
name_pair-keyword_text word_delete = ("D", "ELETE", refl, refl, refl, refl)
name_pair-keyword_text word_table = ("T", "ABLE", refl, refl, refl, refl)
name_pair-keyword_text word_as = ("A", "S", refl, refl, refl, refl)
name_pair-keyword_text word_where = ("W", "HERE", refl, refl, refl, refl)
name_pair-keyword_text word_from = ("F", "ROM", refl, refl, refl, refl)
name_pair-keyword_text word_all = ("A", "LL", refl, refl, refl, refl)
name_pair-keyword_text word_distinct = ("D", "ISTINCT", refl, refl, refl, refl)
name_pair-keyword_text word_auto_increment = ("A", "UTO_INCREMENT", refl, refl, refl, refl)
name_pair-keyword_text word_not = ("N", "OT", refl, refl, refl, refl)
name_pair-keyword_text word_null = ("N", "ULL", refl, refl, refl, refl)
name_pair-keyword_text word_default = ("D", "EFAULT", refl, refl, refl, refl)
name_pair-keyword_text word_and = ("A", "ND", refl, refl, refl, refl)
name_pair-keyword_text word_or = ("O", "R", refl, refl, refl, refl)
name_pair-keyword_text word_values = ("V", "ALUES", refl, refl, refl, refl)
name_pair-keyword_text word_set = ("S", "ET", refl, refl, refl, refl)

lookup_keyword-none :
    (s : String) (m : List (String × Token.TokenType))
    → is_one_of s (map (λ p. p.0) m) ≡ false
    → Token.lookup_keyword s m ≡ none
unfolding Token.lookup_keyword
lookup_keyword-none s [] h = refl
lookup_keyword-none s ((k, t) ∷ m) h = elim (Bool-cases (str_eq k s)) [
  | inl e ↦ absurd (ground (arith, e, h))
  | inr e ↦ rw (e, Token.lookup_keyword) (lookup_keyword-none s m (ground (arith, e, h)))
]

name_pair-none :
    (s : String) → Token.find_keyword s ≡ none → name_pair s ≡ pair Token.tk_id (token_of_text s)
unfolding name_pair
name_pair-none s h = rw (h, name_pair) refl

token_of_text-plain :
    (s : String) → str_eq s "NULL" ≡ false → token_of_text s ≡ record blank_token { text = s }
unfolding token_of_text
token_of_text-plain s h = rw (h, token_of_text) refl

reserved_null : is_reserved "NULL" ≡ true
reserved_null = refl

not_null : (s : String) → is_reserved s ≡ false → str_eq s "NULL" ≡ false
not_null s h = elim (Bool-cases (str_eq s "NULL")) [
  | inl e ↦
      absurd (cc (sym reserved_null ∙ subst (λ x. is_reserved x ≡ false) ((eq_iff s "NULL").0 e) h))
  | inr e ↦ e
]

-- A text that no keyword has is a name.
pub name_pair-name :
    (c : Char) (s : String)
    → is_reserved (String.◌∷◌ c s) ≡ false
    → name_pair (String.◌∷◌ c s) ≡ pair_of (name c s)
unfolding Token.find_keyword pair_of
name_pair-name c s h =
    let whole = String.◌∷◌ c s in
    name_pair-none whole (lookup_keyword-none whole Token.keywords h)
    ∙ ap (pair Token.tk_id) (token_of_text-plain whole (not_null whole h))

-- A symbol before a space
pub symbol_pair-sign_text :
    (g : Sign)
    → (c : Char) × (sign_text g ≡ String.◌∷◌ c String.[])
      × (Token.is_sql_symbol_char (code c) ≡ true)
      × ((t : String) → symbol_pair (code c) (append " " t) ≡ sign_pair g)
unfolding symbol_pair Token.is_sql_symbol_char
symbol_pair-sign_text lparen = ("(", refl, refl, λ t. refl)
symbol_pair-sign_text rparen = (")", refl, refl, λ t. refl)
symbol_pair-sign_text semicolon = (";", refl, refl, λ t. refl)
symbol_pair-sign_text comma = (",", refl, refl, λ t. refl)
symbol_pair-sign_text dot = (".", refl, refl, λ t. refl)
symbol_pair-sign_text asterisk = ("*", refl, refl, λ t. refl)
symbol_pair-sign_text equal = ("=", refl, refl, λ t. refl)
symbol_pair-sign_text exclamation = ("!", refl, refl, λ t. refl)
symbol_pair-sign_text less = ("<", refl, refl, λ t. refl)
symbol_pair-sign_text more = (">", refl, refl, λ t. refl)

horner : (n d p v : ℕ) → (10 * n + d) * p + v ≡ n * (10 * p) + (d * p + v)
horner n d p v = omega arith

decimal_lem : (n : ℕ) (s : String) → decimal n s ≡ n * 10 ^ size s + value_of s
unfolding decimal
decimal_lem n String.[] = omega arith
decimal_lem n (String.◌∷◌ c s) =
    let d = code c - b'0' in
    decimal_lem (10 * n + d) s
    ∙ horner n d (10 ^ size s) (value_of s)
    ∙ ap (λ p. n * p + (d * 10 ^ size s + value_of s)) (sym (pow-succ' 10 (size s)))

-- Horner's rule
pub decimal-value_of : (s : String) → decimal 0 s ≡ value_of s
decimal-value_of s = omega (arith, decimal_lem 0 s)
