-- ===== src/Sql/Tokenizer/Words.antt =====
-- Texts of words with spaces between them, and what the tokenizer makes of them.
use Prim.Native.Char.{Char, code}
use mathlib.Core.Path.{subst}
use open_mem_db.Prelude.{
  ℕ, zero, suc, ◌+◌, ◌≤◌, ◌<◌, ◌^◌, ◌≡◌, refl, sym, ap, ◌∙◌, String, Bool, true, false, ◌||◌,
  Option, none, some, List, [], ◌∷◌, ◌==◌, arith, Bool-cases, inl, inr, All, map, ==_iff, lt→ltb,
}
use open_mem_db.Expr.{TokenData, token_of_value, blank_token, equals}
use open_mem_db.Sql.Token
use open_mem_db.Sql.Tokenizer.{
  append, all, size, found, tokens, push, pair, scan_char, scan_number, scan_integer, tokens_from,
  tokenize, symbol_pair, name_pair, decimal, integer_value, has_x,
}
use open_mem_db.Sql.Tokenizer.Expected.{Word, keyword, name, number, sign, text, IsWord, pair_of}
use open_mem_db.Sql.Tokenizer.Expected.Laws.{
  name_pair-keyword_text, name_pair-name, symbol_pair-sign_text, decimal-value_of,
}
use open_mem_db.Sql.Tokenizer.Laws.{span_stop, numeric_not_alphabetic, symbol_not_alphanumeric}

-- The words, each with a space after it
abbrev pub print : List Word → String
print [] = String.[]
print (w ∷ ws) = append (text w) (append " " (print ws))

all-or : (p q : ℕ → Bool) (s : String) → all p s ≡ true → all (λ c. p c || q c) s ≡ true
all-or p q String.[] h = refl
all-or p q (String.◌∷◌ c s) h = ground (arith, all-or p q s)

numeric_not_x : (c : ℕ) → Token.is_sql_numeric_char c ≡ true → (c == b'x') ≡ false
unfolding Token.is_sql_numeric_char
numeric_not_x c h = elim (Bool-cases (c == b'x')) [
  | inl e ↦
      let wrong : false ≡ true =
        subst (λ n. Token.is_sql_numeric_char n ≡ true) ((==_iff c b'x').0 e) h in
      cc wrong
  | inr e ↦ e
]

no_x : (s : String) → all Token.is_sql_numeric_char s ≡ true → has_x s ≡ false
no_x String.[] h = refl
no_x (String.◌∷◌ c s) h = ground (arith, no_x s, numeric_not_x (code c))

integer_value_lem :
    (s : String)
    → all Token.is_sql_numeric_char s ≡ true
    → decimal 0 s < 2 ^ 63
    → integer_value s ≡ some (decimal 0 s)
unfolding integer_value
integer_value_lem s h small =
    rw (no_x s h, integer_value) (rw (lt→ltb (decimal 0 s) (2 ^ 63) small) refl)

size-append : (s t : String) → size (append s t) ≡ size s + size t
size-append String.[] t = omega arith
size-append (String.◌∷◌ c s) t = omega (arith, size-append s t)

size-text : (w : Word) (t : String) → size t + 2 ≤ size (append (text w) (append " " t))
size-text (keyword k) t =
    let (c, s, spelled, _, _, _) = name_pair-keyword_text k in
    rw (spelled) (omega (arith, size-append s (append " " t)))
size-text (name c s) t = omega (arith, size-append s (append " " t))
size-text (number c s) t = omega (arith, size-append s (append " " t))
size-text (sign g) t =
    let (c, spelled, _, _) = symbol_pair-sign_text g in rw (spelled) (omega arith)

-- The token of `=`
abbrev pub eq_pair : Token.TokenPair
eq_pair =
    pair Token.tk_eq (record blank_token { text = "="; is_operation = true; operation = equals })

module _ (stof : String → Option ℕ) where
  scan_letters :
      (held : Option TokenData) (c : Char) (s t : String)
      → Token.is_sql_alphabetic_char (code c) ≡ true
      → all Token.is_sql_identifier_char s ≡ true
      → scan_char stof held c (append s (append " " t))
        ≡ found (name_pair (String.◌∷◌ c s)) (append " " t)
  unfolding scan_char Token.is_sql_identifier_char
  scan_letters held c s t first rest =
      let stop = span_stop Token.is_sql_identifier_char s " " t rest refl in rw (first, stop) refl

  scan_digits :
      (held : Option TokenData) (c : Char) (s t : String)
      → IsWord (number c s)
      → scan_char stof held c (append s (append " " t))
        ≡ found (pair_of (number c s)) (append " " t)
  unfolding scan_char pair_of scan_number scan_integer Token.is_sql_numeric_char token_of_value
  scan_digits held c s t h =
      let stop =
        span_stop (λ ch. Token.is_sql_numeric_char ch || (ch == b'x')) s " " t
          (all-or Token.is_sql_numeric_char (λ ch. ch == b'x') s h.1) refl in
      let same = decimal-value_of (String.◌∷◌ c s) in
      let small = subst (λ v. v < 2 ^ 63) (sym same) h.2 in
      let value =
        integer_value_lem (String.◌∷◌ c s) (ground (arith, h.0, h.1)) small ∙ ap some same in
      rw (numeric_not_alphabetic (code c) h.0, h.0, scan_char)
        (rw (stop, scan_number) (rw (value, scan_integer) refl))

  -- A round at a word takes it whole, and stops at the space.
  scan_word :
      (held : Option TokenData) (w : Word) (t : String)
      → IsWord w
      → (c : Char) × (s : String) × (append (text w) (append " " t) ≡ String.◌∷◌ c s)
        × (scan_char stof held c s ≡ found (pair_of w) (append " " t))
  unfolding scan_char pair_of
  scan_word held (keyword k) t h =
      let (c, s, spelled, first, rest, known) = name_pair-keyword_text k in
      (
        c,
        append s (append " " t),
        ap (λ x. append x (append " " t)) spelled,
        scan_letters held c s t first rest ∙ ap (λ p. found p (append " " t)) known,
      )
  scan_word held (name c s) t h = (
    c,
    append s (append " " t),
    refl,
    scan_letters held c s t h.0 h.1 ∙ ap (λ p. found p (append " " t)) (name_pair-name c s h.2),
  )
  scan_word held (number c s) t h = (c, append s (append " " t), refl, scan_digits held c s t h)
  scan_word held (sign g) t h =
      let (c, spelled, symbol, known) = symbol_pair-sign_text g in
      let (no_letter, no_digit) = symbol_not_alphanumeric (code c) symbol in
      (
        c,
        append " " t,
        ap (λ x. append x (append " " t)) spelled,
        rw (no_letter, no_digit, symbol) (ap (λ p. found p (append " " t)) (known t)),
      )

  skip_space :
      (f : ℕ) (held : Option TokenData) (t : String)
      → tokens_from stof (suc f) held (append " " t) ≡ tokens_from stof f held t
  unfolding tokens_from scan_char Token.is_sql_alphabetic_char Token.is_sql_numeric_char
      Token.is_sql_symbol_char
  skip_space f held t = refl

  words_lem :
      (f : ℕ) (held : Option TokenData) (ws : List Word)
      → All IsWord ws
      → size (print ws) < f
      → tokens_from stof f held (print ws) ≡ tokens (map pair_of ws)
  unfolding tokens_from
  words_lem zero held ws h e = absurd (omega (arith, e))
  words_lem (suc f) held [] h e = refl
  words_lem (suc zero) held (w ∷ ws) h e = absurd (omega (arith, e, size-text w (print ws)))
  words_lem (suc (suc f)) held (w ∷ ws) h e =
      let (c, s, whole, ran) = scan_word held w (print ws) h.0 in
      rw (whole) (
        rw (ran, tokens_from)
          (rw
            (
              skip_space f (pair_of w).token (print ws),
              words_lem f (pair_of w).token ws h.1 (omega (arith, e, size-text w (print ws))),
            )
            refl))

  -- tokenize takes apart a text of words with a space after each: the 21 keywords, names (a letter,
  -- then characters of an identifier, and no keyword), numbers below 2^63, and the symbols
  -- ( ) ; , . * = ! < >. It gives one token for each word, in order, and no others: a keyword has the
  -- type named after it (AND and OR their operations, NULL the null value), a name TK_ID, a number
  -- TK_INTEGER with its value in 57 bits, and a symbol its own type.
  pub tokenize-print :
      (ws : List Word) → All IsWord ws → tokenize stof (print ws) ≡ tokens (map pair_of ws)
  unfolding tokenize
  tokenize-print ws h = words_lem (suc (size (print ws))) none ws h (omega arith)

  scan_symbol :
      (held : Option TokenData) (c : Char) (s : String)
      → Token.is_sql_symbol_char (code c) ≡ true
      → scan_char stof held c s ≡ found (symbol_pair (code c) s) s
  unfolding scan_char
  scan_symbol held c s h =
      let (no_letter, no_digit) = symbol_not_alphanumeric (code c) h in
      rw (no_letter, no_digit, h) refl

  scan_eq : (held : Option TokenData) (s : String) → scan_char stof held "=" s ≡ found eq_pair s
  unfolding symbol_pair Token.is_sql_symbol_char
  scan_eq held s = scan_symbol held "=" s refl

  tokens_from-found :
      (f : ℕ) (held : Option TokenData) (c : Char) (s : String) (p : Token.TokenPair)
      → scan_char stof held c s ≡ found p s
      → tokens_from stof (suc f) held (String.◌∷◌ c s) ≡ push p (tokens_from stof f p.token s)
  unfolding tokens_from
  tokens_from-found f held c s p e = rw (e, tokens_from) refl

  -- A `=` after a symbol is a token of its own, whatever the symbol, also where `!`, `<` and `>`
  -- are read as `!=`, `<=` and `>=` beside it: tokenize pushes the symbol's pair, that of `=`, and
  -- what it finds in the text after.
  pub tokenize-symbol_eq :
      (c : Char) (s : String)
      → Token.is_sql_symbol_char (code c) ≡ true
      → tokenize stof (String.◌∷◌ c (append "=" s))
        ≡ push
            (symbol_pair (code c) (append "=" s))
            (push eq_pair (tokens_from stof (suc (size s)) eq_pair.token s))
  unfolding tokenize
  tokenize-symbol_eq c s h =
      let first = symbol_pair (code c) (append "=" s) in
      tokens_from-found (suc (suc (size s))) none c (append "=" s) first
        (scan_symbol none c (append "=" s) h)
      ∙ ap (push first)
          (tokens_from-found (suc (size s)) first.token "=" s eq_pair (scan_eq first.token s))
