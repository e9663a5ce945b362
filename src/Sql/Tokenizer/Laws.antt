-- ===== src/Sql/Tokenizer/Laws.antt =====
-- Lemmas on the classes of characters, on the loops that move over the text, and on rounds of the
-- tokenizer.
use Prim.Native.Char.{Char, code}
use native.Mathlib.Decide.{dec_lt}
use open_mem_db.Prelude.{
  if◌then◌else◌, ℕ, zero, suc, ◌+◌, ◌-◌, ◌≤◌, ◌≡◌, refl, String, Bool, true, false, not, ◌&&◌, ◌||◌,
  Option, ◌==◌, arith, get_elem?_past, Bool-cases, inl, inr,
}
use open_mem_db.Sql.Token
use open_mem_db.Sql.Tokenizer.{
  span, append, all, size, Scan, skipped, found, thrown, scan_char, scan_number, scan_float,
  scan_date, scan_integer,
}
use open_mem_db.Expr.{TokenData}

-- A test on the codes from zero up to a bound
holds_up_to : (ℕ → Bool) → ℕ → Bool
holds_up_to test zero = test zero
holds_up_to test (suc last) = if test (suc last) then holds_up_to test last else false

tested : (test : ℕ → Bool) (last n : ℕ) → n ≤ last → holds_up_to test last ≡ true → test n ≡ true
unfolding holds_up_to
tested test zero n below ran = let e : n ≡ zero = omega (arith, below) in rw (e) ran
tested test (suc last) n below ran = elim (dec_lt n (suc last)) [
  | yes h ↦ tested test last n (omega (arith, h)) (ground (arith, ran))
  | no h ↦ let e : n ≡ suc last = omega (arith, h, below) in rw (e) (ground (arith, ran))
]

-- No digit is a letter, and no symbol is a letter or a digit.
abbrev exclusive : ℕ → Bool
exclusive c =
    not (Token.is_sql_numeric_char c && Token.is_sql_alphabetic_char c)
    && not (
        Token.is_sql_symbol_char c
        && (Token.is_sql_alphabetic_char c || Token.is_sql_numeric_char c))

exclusive_table : holds_up_to exclusive 255 ≡ true
unfolding holds_up_to Token.is_sql_numeric_char Token.is_sql_alphabetic_char
    Token.is_sql_symbol_char
exclusive_table = refl

class_past : (k : ℕ) → Token.class_of (256 + k) ≡ 0x40
unfolding Token.class_of
class_past k = rw (get_elem?_past Token.sql_ascii_map k, Token.class_of)

exclusive_past : (k : ℕ) → exclusive (256 + k) ≡ true
unfolding Token.is_sql_numeric_char Token.is_sql_alphabetic_char Token.is_sql_symbol_char
exclusive_past k = rw (class_past k) refl

exclusive_all : (c : ℕ) → exclusive c ≡ true
exclusive_all c = elim (dec_lt c 256) [
  | yes h ↦ tested exclusive 255 c (omega (arith, h)) exclusive_table
  | no h ↦ let e : c ≡ 256 + (c - 256) = omega (arith, h) in rw (e) (exclusive_past (c - 256))
]

pub numeric_not_alphabetic :
    (c : ℕ) → Token.is_sql_numeric_char c ≡ true → Token.is_sql_alphabetic_char c ≡ false
numeric_not_alphabetic c h = ground (arith, exclusive_all c)

pub symbol_not_alphanumeric :
    (c : ℕ)
    → Token.is_sql_symbol_char c ≡ true
    → (Token.is_sql_alphabetic_char c ≡ false) × (Token.is_sql_numeric_char c ≡ false)
symbol_not_alphanumeric c h = ground (arith, exclusive_all c)

module _ (p : ℕ → Bool) where
  pub size-span : (s : String) → size (span p s).1 ≤ size s
  unfolding span
  size-span String.[] = omega arith
  size-span (String.◌∷◌ c s) = ground (arith, size-span s)

  pub all-span : (s : String) → all p (span p s).0 ≡ true
  unfolding span
  all-span String.[] = refl
  all-span (String.◌∷◌ c s) = elim (Bool-cases (p (code c))) [
    | inl e ↦ rw (e) (rw (e) (all-span s))
    | inr e ↦ rw (e) refl
  ]

  -- A loop over characters that pass, up to one that does not
  pub span_stop :
      (s : String) (d : Char) (t : String)
      → all p s ≡ true
      → p (code d) ≡ false
      → span p (append s (String.◌∷◌ d t)) ≡ (s, String.◌∷◌ d t)
  unfolding span
  span_stop String.[] d t h stop = rw (stop) refl
  span_stop (String.◌∷◌ c s) d t h stop = ground (arith, span_stop s d t)

-- A round leaves no more than the text after its character.
abbrev pub Shorter : Scan → ℕ → Type 0
Shorter (skipped rest) n = size rest ≤ n
Shorter (found p rest) n = size rest ≤ n
Shorter thrown n = Unit

module _ (stof : String → Option ℕ) where
  scan_float-Shorter :
      (held : Option TokenData) (text rest : String) (n : ℕ)
      → size rest ≤ n
      → Shorter (scan_float stof held text rest) n
  unfolding scan_float
  scan_float-Shorter held text rest n h = ground (arith, size-span Token.is_sql_numeric_char rest)

  scan_date-Shorter :
      (text rest : String) (n : ℕ) → size rest ≤ n → Shorter (scan_date stof text rest) n
  unfolding scan_date
  scan_date-Shorter text rest n h = ground arith

  scan_integer-Shorter :
      (text rest : String) (n : ℕ) → size rest ≤ n → Shorter (scan_integer stof text rest) n
  unfolding scan_integer
  scan_integer-Shorter text rest n h = ground arith

  scan_number-Shorter :
      (held : Option TokenData) (c : Char) (s : String)
      → Shorter (scan_number stof held c s) (size s)
  unfolding scan_number
  scan_number-Shorter held c s =
      let p = λ (ch : ℕ). Token.is_sql_numeric_char ch || (ch == b'x') in
      let text = String.◌∷◌ c (span p s).0 in
      let rest = (span p s).1 in
      let h = size-span p s in
      ground (
        arith,
        h,
        scan_float-Shorter held text rest (size s) h,
        scan_date-Shorter text rest (size s) h,
        scan_integer-Shorter text rest (size s) h,
      )

  pub scan_char-Shorter :
      (held : Option TokenData) (c : Char) (s : String) → Shorter (scan_char stof held c s) (size s)
  unfolding scan_char
  scan_char-Shorter held c s =
      ground (arith, size-span Token.is_sql_identifier_char s, scan_number-Shorter held c s)
