-- ===== src/Sql/Tokenizer/Dates.antt =====
-- The tokenizer and dates: the text that it hands to checkDateFormat has at most nine characters, or
-- no dash in the fifth place.
use Prim.Native.Char.{Char, code}
use mathlib.Core.Path.{subst}
use open_mem_db.Prelude.{
  ==_iff, ℕ, zero, suc, ◌≤◌, ◌<◌, ◌≡◌, ◌≢◌, refl, String, true, false, ◌&&◌, ◌||◌, Option, none,
  some, List, [], ◌∷◌, ◌==◌, arith, str_eq, Option-cases, Bool-cases, inl, inr, All,
}
use open_mem_db.Expr.{TokenData}
use open_mem_db.Sql.Token
use open_mem_db.Sql.Tokenizer.{
  span, append, all, size, peek, Scan, skipped, found, thrown, Tokens, tokens, exception, starved,
  push, scan_char, scan_number, scan_float, scan_date, scan_integer, tokens_from, tokenize,
  symbol_pair, safe_advance, check_date_format, date_format_from, name_pair,
}
use open_mem_db.Sql.Tokenizer.Laws.{all-span}

-- The pair is no date.
abbrev NoDate : Token.TokenPair → Type 0
NoDate p = p.token_type ≢ Token.tk_date

abbrev Dateless : Scan → Type 0
Dateless (skipped rest) = Unit {0}
Dateless (found p rest) = NoDate p
Dateless thrown = Unit {0}

dash_stops :
    (c : Char)
    → (Token.is_sql_numeric_char (code c) || (code c == b'x')) ≡ true
    → (code c == b'-') ≡ false
unfolding Token.is_sql_numeric_char
dash_stops c h = elim (Bool-cases (code c == b'-')) [
  | inl e ↦
      let d : code c ≡ b'-' = (==_iff (code c) b'-').0 e in
      let wrong : false ≡ true =
        subst (λ n. (Token.is_sql_numeric_char n || (n == b'x')) ≡ true) d h in
      cc wrong
  | inr e ↦ e
]

size-safe_advance : (n : ℕ) (s : String) → size (safe_advance n s).0 ≤ n
unfolding safe_advance
size-safe_advance zero s = omega arith
size-safe_advance (suc n) String.[] = omega arith
size-safe_advance (suc n) (String.◌∷◌ c s) = omega (arith, size-safe_advance n s)

short_text : (n i : ℕ) (s : String) → size s < n → date_format_from n i s ≡ false
unfolding date_format_from
short_text zero i s h = absurd (omega (arith, h))
short_text (suc n) i String.[] h = refl
short_text (suc n) i (String.◌∷◌ c s) h =
    let rest = short_text n (suc i) s (omega (arith, h)) in ground (arith, rest)

-- A text of digits and letters x, then a dash and at most four characters, is no date.
no_date_text :
    (c : Char) (text : String) (d : Char) (rest : String)
    → code d ≡ b'-'
    → all (λ ch. Token.is_sql_numeric_char ch || (ch == b'x')) text ≡ true
    → ((safe_advance 5 (String.◌∷◌ d rest)).1
        && check_date_format (String.◌∷◌ c (append text (safe_advance 5 (String.◌∷◌ d rest)).0)))
      ≡ false
unfolding check_date_format safe_advance
no_date_text c String.[] d rest dash h = ground (arith, dash)
no_date_text c (String.◌∷◌ c1 String.[]) d rest dash h = ground (arith, dash)
no_date_text c (String.◌∷◌ c1 (String.◌∷◌ c2 String.[])) d rest dash h = ground (arith, dash)
no_date_text c (String.◌∷◌ c1 (String.◌∷◌ c2 (String.◌∷◌ c3 String.[]))) d rest dash h =
    let short = short_text 5 5 (safe_advance 4 rest).0 (omega (arith, size-safe_advance 4 rest)) in
    ground (arith, short)
no_date_text c (String.◌∷◌ c1 (String.◌∷◌ c2 (String.◌∷◌ c3 (String.◌∷◌ c4 text)))) d rest dash h =
    let p = λ (n : ℕ). Token.is_sql_numeric_char n || (n == b'x') in
    let fourth : p (code c4) ≡ true = ground (arith, h) in
    let no_dash = dash_stops c4 fourth in ground (arith, no_dash)

peek_dash :
    (rest : String)
    → (peek rest == b'-') ≡ true
    → (d : Char) × (tail : String) × (rest ≡ String.◌∷◌ d tail) × (code d ≡ b'-')
peek_dash String.[] h = absurd (ground (arith, h))
peek_dash (String.◌∷◌ d tail) h = (d, tail, refl, (==_iff (code d) b'-').0 h)

lookup_keyword-no_date :
    (s : String) (t : Token.TokenType) (m : List (String × Token.TokenType))
    → All (λ (e : String × Token.TokenType). e.1 ≢ Token.tk_date) m
    → Token.lookup_keyword s m ≡ some t
    → t ≢ Token.tk_date
unfolding Token.lookup_keyword
lookup_keyword-no_date s t [] h e = absurd (cc)
lookup_keyword-no_date s t ((k, u) ∷ m) h e = elim (Bool-cases (str_eq k s)) [
  | inl same ↦ let found : some u ≡ some t = rw same at e in let good = h.0 in λ wrong. good (cc)
  | inr other ↦ lookup_keyword-no_date s t m h.1 (rw other at e)
]

find_keyword-no_date :
    (s : String) (t : Token.TokenType) → Token.find_keyword s ≡ some t → t ≢ Token.tk_date
unfolding Token.find_keyword
find_keyword-no_date s t e = lookup_keyword-no_date s t Token.keywords (ground arith) e

-- The pairs of a list are no dates.
abbrev pub AllDateless : Tokens → Type 0
AllDateless (tokens ts) = All NoDate ts
AllDateless exception = Unit
AllDateless starved = Unit

push-AllDateless :
    (p : Token.TokenPair) (ts : Tokens) → NoDate p → AllDateless ts → AllDateless (push p ts)
push-AllDateless p (tokens ts) h k = (h, k)
push-AllDateless p exception h k = tt
push-AllDateless p starved h k = tt

symbol_pair-NoDate : (c : ℕ) (s : String) → NoDate (symbol_pair c s)
unfolding symbol_pair
symbol_pair-NoDate c s = ground arith

name_pair-NoDate : (s : String) → NoDate (name_pair s)
unfolding name_pair
name_pair-NoDate s = elim (Option-cases (Token.find_keyword s)) [
  | inl e ↦ rw (e, name_pair) (λ e. cc)
  | inr (t, e) ↦ let good = find_keyword-no_date s t e in rw (e, name_pair) (ground (arith, good))
]

module _ (stof : String → Option ℕ) where
  scan_date-Dateless :
      (c : Char) (text rest : String)
      → (peek rest == b'-') ≡ true
      → all (λ ch. Token.is_sql_numeric_char ch || (ch == b'x')) text ≡ true
      → Dateless (scan_date stof (String.◌∷◌ c text) rest)
  unfolding scan_date
  scan_date-Dateless c text rest dash h =
      let (d, tail, e, is_dash) = peek_dash rest dash in
      rw (e) (rw (no_date_text c text d tail is_dash h, scan_date) (λ e. cc))

  scan_float-Dateless :
      (held : Option TokenData) (text rest : String) → Dateless (scan_float stof held text rest)
  unfolding scan_float
  scan_float-Dateless held text rest = ground arith

  scan_integer-Dateless : (text rest : String) → Dateless (scan_integer stof text rest)
  unfolding scan_integer
  scan_integer-Dateless text rest = ground arith

  scan_number-Dateless :
      (held : Option TokenData) (c : Char) (s : String) → Dateless (scan_number stof held c s)
  unfolding scan_number
  scan_number-Dateless held c s =
      let p = λ (ch : ℕ). Token.is_sql_numeric_char ch || (ch == b'x') in
      let text = (span p s).0 in
      let rest = (span p s).1 in
      elim (Bool-cases (peek rest == b'-')) [
        | inl dash ↦ ground (
          arith,
          scan_float-Dateless held (String.◌∷◌ c text) rest,
          scan_date-Dateless c text rest dash (all-span p s),
          scan_integer-Dateless (String.◌∷◌ c text) rest,
        )
        | inr other ↦ ground (
          arith,
          scan_float-Dateless held (String.◌∷◌ c text) rest,
          scan_integer-Dateless (String.◌∷◌ c text) rest,
        )
      ]

  scan_char-Dateless :
      (held : Option TokenData) (c : Char) (s : String) → Dateless (scan_char stof held c s)
  unfolding scan_char
  scan_char-Dateless held c s = ground (
    arith,
    scan_number-Dateless held c s,
    symbol_pair-NoDate (code c) s,
    name_pair-NoDate (String.◌∷◌ c (span Token.is_sql_identifier_char s).0),
  )

  tokens_from-AllDateless :
      (f : ℕ) (held : Option TokenData) (s : String) → AllDateless (tokens_from stof f held s)
  unfolding tokens_from
  tokens_from-AllDateless zero held s = tt
  tokens_from-AllDateless (suc f) held String.[] = tt
  tokens_from-AllDateless (suc f) held (String.◌∷◌ c s) =
      round (scan_char stof held c s) (scan_char-Dateless held c s) (tokens_from-AllDateless f)
    where
      round :
          (r : Scan)
          → Dateless r
          → ((held' : Option TokenData) (rest : String)
              → AllDateless (tokens_from stof f held' rest))
          → AllDateless (elim r as (λ r. Tokens) [
            | thrown ↦ exception
            | skipped rest ↦ tokens_from stof f held rest
            | found p rest ↦ push p (tokens_from stof f p.token rest)
          ])
      round (skipped rest) h ih = ih held rest
      round (found p rest) h ih = push-AllDateless p _ h (ih p.token rest)
      round thrown h ih = tt

  -- Whatever the text, tokenize gives no token of the type TK_DATE.
  pub tokenize-AllDateless : (s : String) → AllDateless (tokenize stof s)
  unfolding tokenize
  tokenize-AllDateless s = tokens_from-AllDateless (suc (size s)) none s
