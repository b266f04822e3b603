-- ===== src/Assistant/Tests.antt =====
-- Concrete calls: the rate limit, two in ten seconds of ten ticks each; and a conversation with two
-- turns of tools.
use market_place_app.Prelude.{
  ◌≡◌, ◌≤◌, ◌+◌, ◌*◌, refl, true, none, some, List, [], ◌∷◌, String, if◌then◌else◌, not, leb, arith,
  ℕ,
}
use market_place_app.Assistant.RateLimit.{
  Request, ChatRateLimit, window, passed, refused, client_key, is_chat, drop_expired, dispatch,
}
use market_place_app.Assistant.ChatBounds.{
  Arrival, no_hits, hits_after, let_through, count_in, is_passed, let_through_lem,
}
use market_place_app.Assistant.Admission.{live, dispatch_lem}
use market_place_app.Assistant.Retry.{retry_lem}
use market_place_app.Assistant.Agent.{
  ToolUse, Block, text, tool_use, Message, said, Response, Peers, returned, is_write, tool_blocks,
  turn_results, run_agent_loop,
}
use market_place_app.Assistant.AgentTurns.{times, use_ids, result_ids}
use market_place_app.Assistant.AgentEnds.{
  Returns, turn_results_lem, run_agent_loop_ends, run_agent_loop_writes,
}

abbrev limits : ChatRateLimit
limits = record {
  limit = 2;
  window_seconds = 10;
  ticks_per_second = 10;
  chat_path = "/api/v1/assistant/chat";
}

abbrev chat : String → Request
chat host = record {
  method = "POST";
  path = "/api/v1/assistant/chat";
  authorization = none;
  forwarded_for = some host;
  client_host = none;
}

abbrev arrivals : List Arrival
arrivals = (5, chat "a") ∷ (6, chat "b") ∷ (50, chat "a") ∷ []

let_through_lem_example :
    count_in 5 (window limits) (let_through limits "ip:a" arrivals no_hits) ≤ limits.limit
let_through_lem_example =
    let_through_lem limits "ip:a" 5 0 arrivals (omega arith, (omega arith, (omega arith, tt)))

dispatch_lem_example :
    is_passed (dispatch limits 60 (chat "a") (hits_after limits arrivals no_hits)).0 ≡ (
      if is_chat limits (chat "a")
      then not (
          leb limits.limit
            (live (window limits) 60 (let_through limits (client_key (chat "a")) arrivals no_hits)))
      else true)
dispatch_lem_example =
    dispatch_lem limits 0 60 arrivals (chat "a") (omega arith, (omega arith, (omega arith, tt)))
      (omega arith, (omega arith, (omega arith, tt)))

-- Told to wait four of the 4.5 seconds that it takes.
is_refused : (dispatch limits 60 (chat "a") (hits_after limits arrivals no_hits)).0 ≡ refused 4
unfolding dispatch hits_after drop_expired client_key
is_refused = refl

too_early :
    (dispatch limits 100
      (chat "a")
      (dispatch limits 60 (chat "a") (hits_after limits arrivals no_hits)).1).0
    ≡ refused 1
unfolding dispatch hits_after drop_expired client_key
too_early = refl

retry_lem_example :
    (dispatch limits
      (60 + (4 + 1) * limits.ticks_per_second)
      (chat "a")
      (dispatch limits 60 (chat "a") (hits_after limits arrivals no_hits)).1).0
    ≡ passed
retry_lem_example = retry_lem limits arrivals 60 4 (chat "a") (omega arith) is_refused

abbrev add : String → ToolUse
add id = record { id = id; name = "add_to_cart"; input = "{}" }

abbrev two_adds : List Block
two_adds =
    text "I add both."
    ∷ tool_use (add "1")
    ∷ tool_use (record { id = "2"; name = "get_policy"; input = "{}" })
    ∷ tool_use (add "3")
    ∷ []

abbrev asks : Response
asks = record {
  content = two_adds;
  stop_reason = some "tool_use";
  input_tokens = 7;
  output_tokens = 5;
}

abbrev answers : Response
answers = record {
  content = text "Done." ∷ [];
  stop_reason = some "end_turn";
  input_tokens = 7;
  output_tokens = 5;
}

-- The state counts the calls of the model, or the writes.
abbrev call_counter : Peers ℕ
call_counter = record {
  create = λ final messages w. (some (if final then answers else asks), w + 1);
  handler = λ name input w. (returned "{}", w);
}

abbrev write_counter : Peers ℕ
write_counter = record {
  create = λ final messages w. (some (if final then answers else asks), w);
  handler = λ name input w. (
    returned "{}",
    w + (if is_write (record { id = ""; name = name; input = input }) then 1 else 0),
  );
}

abbrev history : List Message
history = said "user" "Add both to my cart." ∷ []

run_agent_loop_ends_example :
    Returns (λ w. w) (0 + 5 + 1) (run_agent_loop call_counter 6 5 history 0)
run_agent_loop_ends_example =
    run_agent_loop_ends call_counter (λ w. w) 6 5 history 0 (λ b ms v. omega arith)
      (λ name input v. refl) (omega arith)

write_counted :
    (b : ToolUse) (v : ℕ)
    → (write_counter.handler b.name b.input v).1 ≤ v + (if is_write b then 1 else 0)
unfolding is_write
write_counted b v = omega arith

run_agent_loop_writes_example :
    Returns (λ w. w) (0 + 5) (run_agent_loop write_counter 6 5 history 0)
run_agent_loop_writes_example =
    run_agent_loop_writes write_counter (λ w. w) 6 5 history 0 (λ b ms v. refl) write_counted
      (omega arith)

turn_results_lem_example :
    (let ((results, calls), w') = turn_results write_counter two_adds 0 in
      (times "3" (result_ids results) ≡ times "3" (use_ids (tool_blocks two_adds))) × (w' ≤ 0 + 1))
turn_results_lem_example = turn_results_lem write_counter (λ w. w) write_counted "3" two_adds 0
