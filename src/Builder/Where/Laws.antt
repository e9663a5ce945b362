-- ===== src/Builder/Where/Laws.antt =====
-- The tree of a WHERE clause holds its comparisons in the order in which they were read.
use open_mem_db.Prelude.{
  ◌≡◌, refl, ap, ◌∙◌, inl, inr, List, [], ◌∷◌, ◌++◌, map, append_assoc, append-nil, sym,
  if◌then◌else◌, Bool-cases,
}
use open_mem_db.Expr.{
  TokenData, Expression, nullptr, node, create_expression, info_of_token, is_expr_flag_contained,
  flag_nested,
}
use open_mem_db.Builder.{StatementBuilder}
use open_mem_db.Builder.Where.{grow, add_value_expr}

-- The tokens of one comparison: the operation and its two sides.
pub record Comparison : Type 0 where
  pub operation : TokenData
  pub left : TokenData
  pub right : TokenData

-- The comparisons of a tree, from left to right.
abbrev pub comparisons : Expression → List Expression
comparisons nullptr = []
comparisons (node i l r) =
    if is_expr_flag_contained i.flags flag_nested
    then comparisons l ++ comparisons r
    else node i l r ∷ []

abbrev pub expression_of : Comparison → Expression
expression_of c = create_expression c.operation c.left c.right

-- The calls of builderAddValueExpr for a clause.
abbrev pub add_all : StatementBuilder → List Comparison → StatementBuilder
add_all b [] = b
add_all b (c ∷ cs) = add_all (add_value_expr b c.operation c.left c.right) cs

comparisons-expression_of : (c : Comparison) → comparisons (expression_of c) ≡ expression_of c ∷ []
unfolding create_expression info_of_token is_expr_flag_contained
comparisons-expression_of c = elim (Bool-cases c.operation.is_column) [
  | inl e ↦ rw (e, info_of_token) refl
  | inr e ↦ elim (Bool-cases c.operation.is_value) [
    | inl f ↦ rw (e, f, info_of_token) refl
    | inr f ↦ rw (e, f, info_of_token) refl
  ]
]

comparisons-grow :
    (e : Expression) (c : Comparison)
    → comparisons (grow e c.operation c.left c.right) ≡ comparisons e ++ expression_of c ∷ []
unfolding grow is_expr_flag_contained
comparisons-grow nullptr c = comparisons-expression_of c
comparisons-grow (node i l r) c =
    ap (λ es. comparisons (node i l r) ++ es) (comparisons-expression_of c)

-- After the calls for a clause, the tree holds the comparisons that it held before and then those
-- of the clause, in order, none lost and none twice.
pub comparisons-add_all :
    (b : StatementBuilder) (cs : List Comparison)
    → comparisons (add_all b cs).expr ≡ comparisons b.expr ++ map expression_of cs
unfolding add_value_expr
comparisons-add_all b [] = sym (append-nil (comparisons b.expr))
comparisons-add_all b (c ∷ cs) =
    comparisons-add_all (add_value_expr b c.operation c.left c.right) cs
    ∙ rw (comparisons-grow b.expr c)
        (append_assoc (comparisons b.expr) (expression_of c ∷ []) (map expression_of cs))
