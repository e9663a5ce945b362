-- ===== src/Builder/Select/Laws.antt =====
-- The tables that a SELECT statement reads.
use open_mem_db.Prelude.{
  String, ◌≡◌, refl, ◌∙◌, inl, inr, Bool, true, false, ◌||◌, List, [], ◌∷◌, ◌++◌, str_eq, eq_iff,
  sym, Bool-cases, arith,
}
use open_mem_db.Schema.{ColumnReference}
use open_mem_db.Builder.Select.{contains, collect_tables}

-- A column of the table is among the references.
abbrev pub refers_to : List ColumnReference → String → Bool
refers_to [] x = false
refers_to (c ∷ cs) x = str_eq c.table x || refers_to cs x

-- No name occurs twice.
abbrev pub Unique : List String → Type 0
Unique [] = Unit
Unique (x ∷ xs) = (contains xs x ≡ false) × Unique xs

contains-snoc :
    (ts : List String) (y x : String) → contains (ts ++ y ∷ []) x ≡ (contains ts x || str_eq y x)
contains-snoc [] y x = ground arith
contains-snoc (z ∷ ts) y x = ground (arith, contains-snoc ts y x)

str_eq-false : (x y : String) → str_eq x y ≡ false → str_eq y x ≡ false
str_eq-false x y e = elim (Bool-cases (str_eq y x)) [
  | inr f ↦ f
  | inl f ↦ let g = (eq_iff x y).1 (sym ((eq_iff y x).0 f)) in absurd (ground (arith, e, g))
]

-- A name that is there already adds nothing.
already :
    (ts : List String) (y x : String) (b : Bool)
    → contains ts y ≡ true
    → (contains ts x || b) ≡ (contains ts x || (str_eq y x || b))
already ts y x b e = elim (Bool-cases (str_eq y x)) [
  | inr f ↦ ground (arith, f)
  | inl f ↦ let here : contains ts x ≡ true = rw ((eq_iff y x).0 f) at e in ground (arith, f, here)
]

Unique-snoc :
    (ts : List String) (y : String) → Unique ts → contains ts y ≡ false → Unique (ts ++ y ∷ [])
Unique-snoc [] y u n = (refl, tt)
Unique-snoc (z ∷ ts) y u n = elim (Bool-cases (str_eq z y)) [
  | inl e ↦ absurd (ground (arith, e, n))
  | inr e ↦ (
    contains-snoc ts y z ∙ (let f = str_eq-false z y e in let g = u.0 in ground (arith, f, g)),
    Unique-snoc ts y u.1 (rw e at n),
  )
]

-- The tables of a SELECT statement are those of its source columns and those it had before, each
-- once.
pub collect_tables_lem :
    (cs : List ColumnReference) (ts : List String)
    → Unique ts
    → Unique (collect_tables cs ts)
      × ((x : String) → contains (collect_tables cs ts) x ≡ (contains ts x || refers_to cs x))
unfolding collect_tables
collect_tables_lem [] ts u = (u, λ x. ground arith)
collect_tables_lem (c ∷ cs) ts u = elim (Bool-cases (contains ts c.table)) [
  | inl e ↦
      let (unique, same) = collect_tables_lem cs ts u in
      (rw e unique, λ x. rw e (same x ∙ already ts c.table x (refers_to cs x) e))
  | inr e ↦
      let (unique, same) =
        collect_tables_lem cs (ts ++ c.table ∷ []) (Unique-snoc ts c.table u e) in
      (rw e unique, λ x. rw e (same x ∙ rw (contains-snoc ts c.table x) (ground arith)))
]
