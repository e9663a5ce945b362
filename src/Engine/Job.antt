-- ===== src/Engine/Job.antt =====
-- A statement's text run on the store: parse of database/source/sql/parser/omdb_parser.cc and
-- WorkThread::GenerateJob of database/source/workmanager/work_thread.cc. The generated parser, which
-- is not in the repository, is an argument: what it makes of a builder and the tokens. `none` is an
-- exception or undefined behaviour in the job.
use Prim.Native.Nat.{compare, Ordering}
use Prim.Native.Char.{Char, char, nul}
use open_mem_db.Prelude.{
  ℕ, ◌≡◌, refl, String, Bool, true, false, ◌&&◌, ◌||◌, if◌then◌else◌, Option, none, some, List, [],
  ◌∷◌,
}
use open_mem_db.Result.{ResultStatus, success, failure_syntax, failure_db_unknown_state, manip, err}
use open_mem_db.Tervel.{Tervel}
use open_mem_db.Store.{DataStore}
use open_mem_db.Builder.{StatementBuilder, ParsedStatement, new_builder}
use open_mem_db.Builder.Where.{setup_statement}
use open_mem_db.Sql.Token.{TokenPair}
use open_mem_db.Sql.Tokenizer.{tokens, exception, starved, tokenize}
use open_mem_db.Engine.{JointResult, of_command, execute_statement}

-- ParseResult
pub record ParseResult : Type 0 where
  pub status : ResultStatus
  pub result : Option ParsedStatement

-- struct JobResult
pub record JobResult : Type 0 where
  pub job_number : ℕ
  pub result : JointResult

-- Whether the loop that deletes the tokens meets a pointer, not null, that it has deleted.
abbrev pub deleted_twice : List TokenPair → Bool
deleted_twice [] = false
deleted_twice (p ∷ ps) =
    (p.again && elim p.token [ none ↦ false | some t ↦ true ]) || deleted_twice ps

as_char : (n : ℕ) (o : Ordering) → compare n 55296 ≡ o → Char
as_char n Ordering.lt e = char n (rw (e) tt)
as_char n _ e = nul

-- std::string of bytes, each a character of its own
unfoldable pub text_of : List ℕ → String
unfolding as_char
text_of [] = String.[]
text_of (b ∷ bs) = String.◌∷◌ (as_char b (compare b 55296) refl) (text_of bs)

module _ ⦃t : Tervel⦄ (stof : String → Option ℕ)
    (grammar : DataStore → List TokenPair → StatementBuilder → Option StatementBuilder) where
  -- What parse does with the builder.
  unfoldable pub finish_parse : DataStore → StatementBuilder → Option ParseResult
  finish_parse s b = elim b.statement [
    | none ↦ some (record { status = failure_syntax; result = none })
    | some st ↦ elim b.valid [
      | false ↦ some (record { status = failure_syntax; result = none })
      | true ↦ elim (setup_statement s st b.expr) [
        | none ↦ none
        | some st' ↦ some (record { status = success; result = some st' })
      ]
    ]
  ]

  -- parse: the tokens are deleted one by one as the parser has run, and a pointer that two pairs share
  -- is deleted twice.
  unfoldable pub parse : String → DataStore → Option ParseResult
  parse input s = elim (tokenize stof input) [
    | exception ↦ none
    | starved ↦ none
    | tokens ts ↦ elim (grammar s ts new_builder) [
      | none ↦ none
      | some b ↦ if deleted_twice ts then none else finish_parse s b
    ]
  ]

  -- The job's function, with what it leaves of the store; `fuel` is that of deleteTable. The store
  -- is none for a null pointer.
  unfoldable pub run_statement : ℕ → ParseResult → DataStore → Option (JointResult × DataStore)
  run_statement fuel r s = elim r.status [
    | success ↦ elim r.result [
      | none ↦ some (of_command (manip failure_syntax err), s)
      | some st ↦ execute_statement fuel st s
    ]
    | _ ↦ some (of_command (manip failure_syntax err), s)
  ]

  -- GenerateJob, on a store that is there
  unfoldable pub run_job : ℕ → ℕ → List ℕ → DataStore → Option (JobResult × DataStore)
  run_job fuel job_num command s = elim (parse (text_of command) s) [
    | none ↦ none
    | some r ↦ elim (run_statement fuel r s) [
      | none ↦ none
      | some (j, s') ↦ some (record { job_number = job_num; result = j }, s')
    ]
  ]

  -- GenerateJob, on any pointer to a store
  unfoldable pub generate_job :
      ℕ → ℕ → List ℕ → Option DataStore → Option (JobResult × Option DataStore)
  generate_job fuel job_num command none = some (
    record { job_number = job_num; result = of_command (manip failure_db_unknown_state err) },
    none,
  )
  generate_job fuel job_num command (some s) = elim (run_job fuel job_num command s) [
    | none ↦ none
    | some (r, s') ↦ some (r, some s')
  ]
