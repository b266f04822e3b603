-- ===== src/Assistant/Agent.antt =====
-- services/assistant-service/app/agent/loop.py: the loop of model calls and tool calls, and the reply
-- that routes/chat.py takes from it. The language model and the tools' handlers are a parameter; the
-- tools of a turn, which `gather` runs together, act one after the other on its state. Log lines, the
-- system prompt and the timeout are left out.
use market_place_app.Prelude.{
  ℕ, zero, suc, ◌+◌, String, ◌+++◌, Bool, true, false, not, ◌&&◌, Option, none, some, List, [], ◌∷◌,
  ◌++◌, map, any, ltb, str_eq,
}

pub record ToolUse : Type 0 where
  pub id : String
  pub name : String
  pub input : String

pub data Block : Type 0 where
  text : String → Block
  tool_use : ToolUse → Block

pub record ToolResult : Type 0 where
  pub tool_use_id : String
  pub content : String
  pub is_error : Bool

-- What the client sent, with its role; a turn of the model; the results of its tools.
pub data Message : Type 0 where
  said : String → String → Message
  assistant : List Block → Message
  tool_results : List ToolResult → Message

pub record Response : Type 0 where
  pub content : List Block
  pub stop_reason : Option String
  pub input_tokens : ℕ
  pub output_tokens : ℕ

pub record ToolCall : Type 0 where
  pub name : String
  pub success : Bool
  pub rejected : Bool

pub record ChatLoopStats : Type 0 where
  pub loop_iterations : ℕ
  pub tool_calls : List ToolCall
  pub input_tokens : ℕ
  pub output_tokens : ℕ
  pub stop_reason : Option String
  pub forced_final_turn : Bool

abbrev pub new_stats : ChatLoopStats
new_stats = record {
  loop_iterations = 0;
  tool_calls = [];
  input_tokens = 0;
  output_tokens = 0;
  stop_reason = none;
  forced_final_turn = false;
}

-- What a tool's handler does: it returns, raises a ServiceError or raises anything else.
pub data Handled : Type 0 where
  returned : String → Handled
  service_failed : String → Handled
  crashed : Handled

-- `messages.create` with its tools, or with `tool_choice` none, raises where it answers `none`.
pub record Peers (W : Type 0) : Type 0 where
  pub create : Bool → List Message → W → Option Response × W
  pub handler : String → String → W → Handled × W

-- A tool's name, and whether it is a write.
unfoldable pub tools : List (String × Bool)
tools =
    ("search_products", false)
    ∷ ("get_product", false)
    ∷ ("get_availability", false)
    ∷ ("list_categories", false)
    ∷ ("get_policy", false)
    ∷ ("get_my_orders", false)
    ∷ ("get_order_status", false)
    ∷ ("add_to_cart", true)
    ∷ ("remove_from_cart", true)
    ∷ []

unfoldable pub is_known : String → Bool
unfolding tools
is_known name = any (λ (t : String × Bool). str_eq (t.0) name) tools

-- `spec and spec.is_write`
unfoldable pub is_write : ToolUse → Bool
unfolding tools
is_write block = any (λ (t : String × Bool). str_eq (t.0) block.name && t.1) tools

-- The blocks that ask for a tool.
unfoldable pub tool_blocks : List Block → List ToolUse
tool_blocks [] = []
tool_blocks (text t ∷ bs) = tool_blocks bs
tool_blocks (tool_use b ∷ bs) = b ∷ tool_blocks bs

-- The blocks that run and those that are rejected, after a write was seen or not.
unfoldable pub split_writes : Bool → List ToolUse → List ToolUse × List ToolUse
split_writes write_seen [] = ([], [])
split_writes write_seen (b ∷ bs) = elim (is_write b) [
  | false ↦ let (run, rejected) = split_writes write_seen bs in (b ∷ run, rejected)
  | true ↦ elim write_seen [
    | true ↦ let (run, rejected) = split_writes true bs in (run, b ∷ rejected)
    | false ↦ let (run, rejected) = split_writes true bs in (b ∷ run, rejected)
  ]
]

abbrev pub failed_result : String → String → ToolResult
failed_result id content = record { tool_use_id = id; content = content; is_error = true }

abbrev pub result_of : ToolUse → Handled → ToolResult
result_of b (returned json) = record { tool_use_id = b.id; content = json; is_error = false }
result_of b (service_failed message) =
    failed_result b.id ("ServiceError: Downstream tool execution failed. " +++ message)
result_of b crashed =
    failed_result b.id "RuntimeError: internal error, could not complete this action."

abbrev pub skipped : ToolUse → ToolResult
skipped b =
    failed_result b.id
      ("Only one write action is allowed per turn — '" +++ (b.name +++ "' was skipped."))

-- The calls of a turn for the statistics.
unfoldable pub ran : List ToolUse → List ToolResult → List ToolCall
ran [] results = []
ran (b ∷ bs) [] = []
ran (b ∷ bs) (r ∷ rs) =
    record { name = b.name; success = not r.is_error; rejected = false } ∷ ran bs rs

abbrev pub rejected_call : ToolUse → ToolCall
rejected_call b = record { name = b.name; success = false; rejected = true }

module _ {W : Type 0} (peers : Peers W) where
  unfoldable pub run_single_tool : ToolUse → W → ToolResult × W
  run_single_tool b w = elim (is_known b.name) [
    | false ↦ (failed_result b.id ("Error: Tool '" +++ (b.name +++ "' does not exist.")), w)
    | true ↦ let (h, w') = peers.handler b.name b.input w in (result_of b h, w')
  ]

  unfoldable pub run_tools : List ToolUse → W → List ToolResult × W
  run_tools [] w = ([], w)
  run_tools (b ∷ bs) w =
      let (r, w') = run_single_tool b w in let (rs, w'') = run_tools bs w' in (r ∷ rs, w'')

  -- The results of a turn: those of the tools that ran, then those of the rejected ones.
  unfoldable pub turn_results : List Block → W → (List ToolResult × List ToolCall) × W
  turn_results content w =
      let (run, rejected) = split_writes false (tool_blocks content) in
      let (results, w') = run_tools run w in
      ((results ++ map skipped rejected, ran run results ++ map rejected_call rejected), w')

-- `stop_reason == "tool_use"`
abbrev pub asks_for_tools : Option String → Bool
asks_for_tools none = false
asks_for_tools (some reason) = str_eq reason "tool_use"

abbrev pub spent : Response → ChatLoopStats → ChatLoopStats
spent r stats = record stats {
  input_tokens = stats.input_tokens + r.input_tokens;
  output_tokens = stats.output_tokens + r.output_tokens;
}

abbrev pub called : List ToolCall → ChatLoopStats → ChatLoopStats
called calls stats = record stats { tool_calls = stats.tool_calls ++ calls }

abbrev pub ended : ℕ → Response → Bool → ChatLoopStats → ChatLoopStats
ended count r forced stats = record (spent r stats) {
  loop_iterations = count;
  stop_reason = r.stop_reason;
  forced_final_turn = forced;
}

-- The conversation and its statistics, or an exception of the model's API.
abbrev pub Outcome : Type 0
Outcome = Option (List Message × ChatLoopStats)

module _ {W : Type 0} (peers : Peers W) where
  -- The turn behind the loop, without tools.
  unfoldable pub final_turn : ℕ → List Message → ChatLoopStats → W → Outcome × W
  final_turn count messages stats w =
      let (answer, w') = peers.create true messages w in
      elim answer [
        | none ↦ (none, w')
        | some r ↦ (some (messages ++ assistant r.content ∷ [], ended count r true stats), w')
      ]

  -- The while loop from the count `count`, on fuel: `none` is out of fuel.
  unfoldable pub loop_from : ℕ → ℕ → ℕ → List Message → ChatLoopStats → W → Option (Outcome × W)
  loop_from zero max_loops count messages stats w = none
  loop_from (suc fuel) max_loops count messages stats w = elim (ltb count max_loops) [
    | false ↦ some (final_turn count messages stats w)
    | true ↦
        let (answer, w') = peers.create false messages w in
        elim answer [
          | none ↦ some (none, w')
          | some r ↦
              let messages' = messages ++ assistant r.content ∷ [] in
              elim (asks_for_tools r.stop_reason) [
                | false ↦ some (some (messages', ended (count + 1) r false stats), w')
                | true ↦
                    let ((results, calls), w'') = turn_results peers r.content w' in
                    loop_from fuel max_loops (count + 1) (messages' ++ tool_results results ∷ [])
                      (called calls (spent r stats)) w''
              ]
        ]
  ]

  unfoldable pub run_agent_loop : ℕ → ℕ → List Message → W → Option (Outcome × W)
  run_agent_loop fuel max_loops messages w = loop_from fuel max_loops 0 messages new_stats w

-- The first text of the last turn, or the empty text.
unfoldable pub first_text : List Block → String
first_text [] = ""
first_text (text t ∷ bs) = t
first_text (tool_use b ∷ bs) = first_text bs

unfoldable pub last_content : List Message → List Block
last_content [] = []
last_content (assistant content ∷ []) = content
last_content (m ∷ []) = []
last_content (m ∷ (n ∷ ms)) = last_content (n ∷ ms)

-- The reply of `chat_endpoint`.
unfoldable pub reply : List Message → String
reply messages = first_text (last_content messages)
