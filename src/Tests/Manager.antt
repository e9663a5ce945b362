-- ===== src/Tests/Manager.antt =====
-- A client that connects, sends one statement and gets its result.
use open_mem_db.Prelude.{
  ℕ, ◌^◌, ◌<◌, ◌≤◌, ◌⊎◌, ◌≡◌, refl, String, Bool, true, false, Option, none, some, List, [], ◌∷◌,
  ◌++◌, arith, All, length,
}
use open_mem_db.Store.{DataStore}
use open_mem_db.Builder.{StatementBuilder}
use open_mem_db.Sql.Token
use open_mem_db.Sql.Token.{TokenPair}
use open_mem_db.Sql.Tokenizer.{scan_char, tokenize, tokens_from, symbol_pair}
use open_mem_db.Wire.{read, write, put}
use open_mem_db.Wire.Server.{
  accepted, would_block, connection_send, take, send_result, send_both, send_packets, taken,
  command_packet_of, command_metadata, serialize_metadata_packet, serialize_result_packet,
}
use open_mem_db.Client.{c_string}
use open_mem_db.Client.Request.{got, again, connection_recv, command_message, command_buffer}
use open_mem_db.Engine.Job.{JobResult, run_job, parse, text_of, finish_parse, run_statement}
use open_mem_db.Manager.{
  Sent, Asked, no_socket, socket, Round, Manager, start_manager, run_round, work, take_connection,
  greet, serve, receive_all, receive_command, accept_command, get_available_thread, enqueue,
  extract, poll, send_all, find_connection,
}
use open_mem_db.Manager.Routing.{History, begin, round, thread, heard_in, Answers}
use open_mem_db.Manager.Start.{initialize, initialize_lem, e_none, e_net_err, e_other_err}
use open_mem_db.Manager.Routing.Rounds.{sent-Answers, sent_once}
use open_mem_db.Manager.Counting
use open_mem_db.Tervel.Listed.{listed}

abbrev pub zero_float : String → Option ℕ
zero_float s = some 0

-- A parser that leaves the builder as it is
abbrev pub grammar : DataStore → List TokenPair → StatementBuilder → Option StatementBuilder
grammar s ts b = some b

abbrev quiet : Round
quiet = record {
  incoming = no_socket;
  greetings = [];
  buffer = λ i. 0;
  recvs = λ fd. again;
  net = λ n. (accepted 552, accepted 10);
  memory = λ n. (λ i. 0, λ i. 0);
}

-- A client at socket 5: the second try to greet it succeeds, and it sends the text `;`.
abbrev arrival : Round
arrival = record quiet {
  incoming = socket 5;
  greetings = would_block ∷ accepted 5 ∷ [];
  recvs = λ fd. got (1 ∷ 1 ∷ 59 ∷ 0 ∷ []);
}

abbrev state_after : Option (Bool × Manager × List Sent) → Manager
state_after none = start_manager 8
state_after (some (go, m, sent)) = m

abbrev sent_in : Option (Bool × Manager × List Sent) → List Sent
sent_in none = []
sent_in (some (go, m, sent)) = sent

abbrev worked : Option Manager → Manager
worked none = start_manager 8
worked (some m) = m

abbrev pub execute : ℕ → List ℕ → DataStore → Option (JobResult × DataStore)
execute = run_job zero_float grammar 10

abbrev asked : Manager
asked = state_after (run_round arrival (start_manager 8))

abbrev done : Manager
done = worked (work execute 1 0 asked)

arrival_run : run_round arrival (start_manager 8) ≡ some (true, asked, [])
unfolding run_round take_connection greet connection_send serve receive_all start_manager
    receive_command connection_recv command_message c_string read command_buffer write take put
    accept_command get_available_thread enqueue extract poll send_all
arrival_run = refl

work_run : work execute 1 0 asked ≡ some done
unfolding work run_job parse text_of tokenize tokens_from symbol_pair finish_parse run_statement
    run_round take_connection greet connection_send serve receive_all start_manager receive_command
    connection_recv command_message c_string read command_buffer write take put accept_command
    get_available_thread enqueue extract poll send_all scan_char Token.is_sql_alphabetic_char
    Token.is_sql_numeric_char Token.is_sql_symbol_char
work_run = refl

abbrev answered : Manager
answered = state_after (run_round quiet done)

abbrev sent : List Sent
sent = sent_in (run_round quiet done)

answer_run : run_round quiet done ≡ some (true, answered, sent)
unfolding work run_job parse text_of tokenize tokens_from symbol_pair finish_parse run_statement
    run_round take_connection greet connection_send serve receive_all start_manager receive_command
    connection_recv command_message c_string read command_buffer write take put accept_command
    get_available_thread enqueue extract poll send_all scan_char Token.is_sql_alphabetic_char
    Token.is_sql_numeric_char Token.is_sql_symbol_char find_connection send_result
answer_run = refl

abbrev commands : List Asked
commands = ([] ++ heard_in arrival (start_manager 8)) ++ heard_in quiet done

one_client : History zero_float grammar 10 commands answered (([] ++ []) ++ sent)
one_client =
    round (thread (round (begin 8) arrival true asked [] arrival_run) 1 0 done work_run) quiet true
      answered sent answer_run

few_commands : length commands < 2 ^ 32
unfolding work run_job parse text_of tokenize tokens_from symbol_pair finish_parse run_statement
    run_round take_connection greet connection_send serve receive_all start_manager receive_command
    connection_recv command_message c_string read command_buffer write take put accept_command
    get_available_thread enqueue extract poll send_all scan_char Token.is_sql_alphabetic_char
    Token.is_sql_numeric_char Token.is_sql_symbol_char find_connection send_result
few_commands = let e : length commands ≡ 1 = refl in omega (arith, e)

one_result : length sent ≡ 1
unfolding work run_job parse text_of tokenize tokens_from symbol_pair finish_parse run_statement
    run_round take_connection greet connection_send serve receive_all start_manager receive_command
    connection_recv command_message c_string read command_buffer write take put accept_command
    get_available_thread enqueue extract poll send_all scan_char Token.is_sql_alphabetic_char
    Token.is_sql_numeric_char Token.is_sql_symbol_char find_connection send_result send_both
    send_packets taken command_packet_of command_metadata serialize_metadata_packet
    serialize_result_packet
one_result = refl

sent-Answers_example : All (Answers zero_float grammar 10 commands) (([] ++ []) ++ sent)
sent-Answers_example =
    sent-Answers zero_float grammar 10 commands answered (([] ++ []) ++ sent) one_client
      few_commands

initialize_lem_example :
    ((initialize 8 false ≡ e_other_err) × (64 < 8))
    ⊎ ((8 ≤ 64) × (false ≡ false) × (initialize 8 false ≡ e_net_err))
    ⊎ ((8 ≤ 64) × (false ≡ true) × (initialize 8 false ≡ e_none))
initialize_lem_example = initialize_lem 8 false

sent_once_example : Counting.sent 1 (([] ++ []) ++ sent) ≤ 1
sent_once_example =
    sent_once zero_float grammar 10 commands answered (([] ++ []) ++ sent) 1 one_client few_commands
