-- ===== src/Tests/Answers.antt =====
-- A text that is no statement, from the client and back to it.
use open_mem_db.Prelude.{◌≡◌, refl, some, [], ◌∷◌, arith, replicate}
use open_mem_db.Result.{ManipResult, manip, failure_syntax, err}
use open_mem_db.Store.{empty_store}
use open_mem_db.Engine.{of_command}
use open_mem_db.Engine.Job.{run_job, parse, text_of, finish_parse, run_statement}
use open_mem_db.Sql.Token
use open_mem_db.Sql.Tokenizer.{scan_char, tokenize, tokens_from, symbol_pair}
use open_mem_db.Wire.{Memory}
use open_mem_db.Client.Request.{sql_statement}
use open_mem_db.Manager.Answering.{Answered, command-Answered}
use open_mem_db.Tervel.Listed.{listed}
use open_mem_db.Tests.Manager.{execute}

abbrev zeros : Memory
zeros i = 0

abbrev refused : ManipResult
refused = manip failure_syntax err

refused_run :
    execute 1 (59 ∷ []) empty_store
    ≡ some (record { job_number = 1; result = of_command refused }, empty_store)
unfolding run_job parse text_of tokenize tokens_from symbol_pair finish_parse run_statement
    scan_char Token.is_sql_alphabetic_char Token.is_sql_numeric_char Token.is_sql_symbol_char
refused_run = refl

command-Answered_example :
    Answered
      (replicate 8 [])
      []
      0
      0
      5
      empty_store
      refl
      refl
      (59 ∷ [])
      sql_statement
      (replicate 300 7)
      zeros
      zeros
      zeros
      execute
      refused
      552
      10
      303
command-Answered_example =
    command-Answered (replicate 8 []) [] 0 0 5 empty_store refl refl (59 ∷ []) sql_statement
      (replicate 300 7) zeros zeros zeros execute refused empty_store 552 10 303 (omega arith)
      ((omega arith, omega arith), tt) refl refused_run (omega arith) (omega arith) (omega arith)
