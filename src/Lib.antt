-- ===== src/Lib.antt =====
-- OpenMemDB, an in-memory SQL database: a model of its server, from the bytes that come in over the
-- store of the tables to the bytes that go out, and of the client library. Paths are relative to the
-- repository's root.
--
-- The parts and the files that model them:
-- - Types, Result, Schema: database/include/util/types.h, util/result.h, sql/common.h, data/types.h
--   and data/table.h. A stored value is a 64-bit word, `TervelData` with its bit-fields; `pack` and
--   `unpack` are the two views of the union.
-- - Sql.Boolean, Sql.Date, Sql.Time, Sql.Exact: database/source/sql/types/boolean.cc and datetime.cc
--   and database/include/sql/types/exact_numeric.h, the tri-state Boolean and the comparisons that
--   answer with it.
-- - Sql.Token, Sql.Tokenizer: sql/parser/token.h and the tokenizer of sql/parser/omdb_parser.cc.
--   `tokenize` runs its loop on fuel, one more than there are characters, and `starved` would say
--   that it was not enough. std::stof is an argument.
-- - Expr: sql/statements/expression.cc with parser/token.h, tokens and expression trees.
-- - Predicate: sql/predicate.cc. `evaluate_operation` compares a cell with the expected value;
--   Predicate.Make is makePredicateFromExpression.
-- - Builder: sql/statements/builder.cc, the functions that the parser calls while it reads a
--   statement: Start (starts, CREATE TABLE, INSERT), Select, Update, Where (with setupStatement).
-- - Tervel: the wait-free vector and hash map, and std::hash, which are not part of the repository.
--   They are an interface of operations and laws, and every function of the store takes it as an
--   instance. The lowest three bits of a word are Tervel's own, so that the law of `push_word`, for a
--   word that need not leave them clear, is only about words that do. Tervel.Listed shows that the
--   laws can be met.
-- - Store: database/source/data/data_store.cc. `DataStore` is the map from hash codes of names to
--   addresses, a heap of tables with their schemas, and a heap of records. Records (copyRecord,
--   updateRecord, the record an insertion builds), Tables (createTable, deleteTable, the lookups),
--   Constraints (schemaChecker), Insert, Search (searchTable and searchTableForRefs), Join
--   (searchTables and searchTablesForRefs), Select (getRecords), Change (updateRecords and
--   deleteRecords). The relation `Shows` of Store.Contents says that the store holds, under a name, a
--   table with these rows in this order; the theorems on the operations are stated with it.
--   Store.Refinement is an abstract table, a counter with a list of rows, and its calls.
-- - Engine: ExecuteStatement, ExecuteCommand and ExecuteQuery of
--   database/source/workmanager/work_thread.cc, a parsed statement run on the store. Engine.Job is
--   `parse` of omdb_parser.cc and GenerateJob: the tokens go to the generated parser, which is an
--   argument.
-- - Wire: the packets of database/include/util/packets.h, their serialisation in
--   database/source/util/common.cc, SendResult of database/source/workmanager/work_manager.cc, and
--   send of database/source/util/network/connection.cc. `Memory` is a function from addresses to
--   bytes, and what is in it beforehand is an argument.
-- - Client: database/libomdb: Client.Request builds a command, Client parses results, Client.Cursor
--   is the row cursor. Client.RoundTrip joins it to Wire.
-- - Manager: the rounds of WorkManager::Run of database/source/workmanager/work_manager.cc and of
--   WorkThread::Run, one step after the other in any order; Manager.Start is Initialize. `Manager`
--   is the state, with the jobs that the threads' queues hold, the futures, and the map from job
--   numbers to connections. Manager.Routing has the histories of rounds and jobs, and
--   Manager.Answering follows one command from the client and back to it.
-- - Tests: concrete inputs for the theorems, over the lists of Tervel.Listed.
--
-- Each operation of the store is modelled as it runs with no other thread between its steps. A
-- pointer is a native number, 0 is null, and an allocation takes the next number and never fails.
-- An exception, a loop that would not end, and undefined behaviour are `none`; only the terminator
-- that DeserializeResultPacket reads past its buffer, which nothing uses, is left out. A member that the
-- source leaves unset is an argument, or zero where the comment on the definition says so. There are
-- two loops on fuel: that of the tokenizer, and the removal in deleteTable, which ends in its first
-- round when the table is there. What a system call returns is an argument.
--
-- Not modelled: the generated grammar, which is not in the repository; the waiting of the threads on
-- their condition variables; the sockets below the system calls; the reference counts of the record
-- accessor, which matter only between threads; the template for characters, of which only the
-- constructors are defined; the printing of tokens and trees; the demo and the tests.
pub mod Prelude
pub mod Types
pub mod Wire
pub mod Client
pub mod Result
pub mod Schema
pub mod Tervel
pub mod Expr
pub mod Predicate
pub mod Builder
pub mod Store
pub mod Engine
pub mod Manager
pub mod Sql
pub mod Tests
