-- ===== src/Sql/Tokenizer/Total.antt =====
-- The loop of the tokenizer ends on every text.
use open_mem_db.Prelude.{
  ℕ, zero, suc, ◌≤◌, ◌<◌, ◌≡◌, ◌≢◌, refl, String, Option, none, List, arith, inl, inr, ◌⊎◌,
}
use open_mem_db.Expr.{TokenData}
use open_mem_db.Sql.Token
use open_mem_db.Sql.Tokenizer.{
  size, Scan, skipped, found, thrown, Tokens, tokens, exception, starved, push, scan_char,
  tokens_from, tokenize,
}
use open_mem_db.Sql.Tokenizer.Laws.{Shorter, scan_char-Shorter}

push-starved : (p : Token.TokenPair) (ts : Tokens) → ts ≢ starved → push p ts ≢ starved
push-starved p (tokens ts) h e = cc
push-starved p exception h e = cc
push-starved p starved h e = h refl

module _ (stof : String → Option ℕ) where
  tokens_from-ne-starved :
      (f : ℕ) (held : Option TokenData) (s : String)
      → size s < f
      → tokens_from stof f held s ≢ starved
  unfolding tokens_from
  tokens_from-ne-starved zero held s h e = absurd (omega (arith, h))
  tokens_from-ne-starved (suc f) held String.[] h e = cc
  tokens_from-ne-starved (suc f) held (String.◌∷◌ c s) h e =
      round f (scan_char stof held c s) (scan_char-Shorter stof held c s)
        (λ held' rest fits. tokens_from-ne-starved f held' rest (omega (arith, fits, h))) e
    where
      round :
          (f : ℕ) (r : Scan)
          → Shorter r (size s)
          → ((held' : Option TokenData) (rest : String)
              → size rest ≤ size s
              → tokens_from stof f held' rest ≢ starved)
          → (elim r as (λ r. Tokens) [
            | thrown ↦ exception
            | skipped rest ↦ tokens_from stof f held rest
            | found p rest ↦ push p (tokens_from stof f p.token rest)
          ])
            ≢ starved
      round f (skipped rest) k ih = ih held rest k
      round f (found p rest) k ih = push-starved p _ (ih p.token rest k)
      round f thrown k ih = λ e. cc

  -- The loop of tokenize ends within one round more than there are characters: on every text the
  -- result is a list of tokens or the exception of a number that is too large.
  pub tokenize_ends :
      (s : String)
      → ((ts : List Token.TokenPair) × (tokenize stof s ≡ tokens ts))
        ⊎ (tokenize stof s ≡ exception)
  unfolding tokenize
  tokenize_ends s =
      cases (tokens_from stof (suc (size s)) none s)
        (tokens_from-ne-starved (suc (size s)) none s (omega arith))
    where
      cases :
          (r : Tokens)
          → r ≢ starved
          → ((ts : List Token.TokenPair) × (r ≡ tokens ts)) ⊎ (r ≡ exception)
      cases (tokens ts) h = inl (ts, refl)
      cases exception h = inr refl
      cases starved h = absurd (h refl)
