-- ===== src/Assistant/AgentEnds.antt =====
-- The end and the cost of the loop of services/assistant-service/app/agent/loop.py.
use market_place_app.Prelude.{
  ℕ, zero, suc, ◌+◌, ◌-◌, ◌≤◌, ◌<◌, ◌≡◌, refl, String, Bool, true, false, Option, none, some, List,
  [], ◌∷◌, ◌++◌, ltb, arith, Bool-cases, Option-cases, inl, inr, if◌then◌else◌,
}
use market_place_app.Assistant.Agent.{
  ToolUse, Block, Message, assistant, tool_results, ChatLoopStats, Peers, is_known, is_write,
  tool_blocks, split_writes, run_single_tool, run_tools, turn_results, spent, called, new_stats,
  Outcome, final_turn, loop_from, run_agent_loop, asks_for_tools,
}
use market_place_app.Assistant.AgentTurns.{
  writes_in, split_writes-one, times, result_ids, use_ids, turn_results-times,
}

-- The last message is the model's.
abbrev pub ends_in_assistant : List Message → Bool
ends_in_assistant [] = false
ends_in_assistant (assistant content ∷ []) = true
ends_in_assistant (m ∷ []) = false
ends_in_assistant (m ∷ (n ∷ ms)) = ends_in_assistant (n ∷ ms)

ends-append :
    (ms : List Message) (content : List Block)
    → ends_in_assistant (ms ++ assistant content ∷ []) ≡ true
ends-append [] content = refl
ends-append (m ∷ []) content = ground arith
ends-append (m ∷ (n ∷ ms)) content = ends-append (n ∷ ms) content

-- An answer ends in a message of the model; an exception of its API says nothing.
abbrev pub IsReplied : Outcome → Type 0
IsReplied none = Unit
IsReplied (some (messages, stats)) = ends_in_assistant messages ≡ true

-- The loop gives a result, replied, with a cost within a bound.
abbrev pub Returns : {W : Type 0} → (W → ℕ) → ℕ → Option (Outcome × W) → Type 0
Returns cost bound none = ⊥
Returns cost bound (some (out, w)) = (cost w ≤ bound) × IsReplied out

Returns-mono :
    {W : Type 0} (cost : W → ℕ) (n m : ℕ) (o : Option (Outcome × W))
    → n ≤ m
    → Returns cost n o
    → Returns cost m o
Returns-mono cost n m none h r = r
Returns-mono cost n m (some (out, w)) h r = (omega arith, r.1)

module _ {W : Type 0} (peers : Peers W) (cost : W → ℕ) (p q : ℕ) (one : p + q ≤ 1)
    (created : (b : Bool) (ms : List Message) (w : W) → cost (peers.create b ms w).1 ≤ cost w + p)
    (turned : (content : List Block) (w : W)
      → cost (turn_results peers content w).1 ≤ cost w + q) where
  final_turn-Returns :
      (count : ℕ) (ms : List Message) (stats : ChatLoopStats) (w : W)
      → Returns cost (cost w + p) (some (final_turn peers count ms stats w))
  unfolding final_turn
  final_turn-Returns count ms stats w =
      let c = created true ms w in
      elim (Option-cases (peers.create true ms w).0) [
        | inl e ↦ ground arith
        | inr (r, e) ↦ ground (arith, ends-append ms r.content)
      ]

  loop_from-Returns :
      (fuel max_loops count : ℕ) (ms : List Message) (stats : ChatLoopStats) (w : W)
      → max_loops < fuel + count
      → count ≤ max_loops
      → Returns cost
          (cost w + (max_loops - count) + p)
          (loop_from peers fuel max_loops count ms stats w)
  unfolding loop_from
  loop_from-Returns zero max_loops count ms stats w f l = omega arith
  loop_from-Returns (suc fuel) max_loops count ms stats w f l =
      elim (Bool-cases (ltb count max_loops)) [
        | inr e ↦
            let same : max_loops ≡ count = ground arith in
            let r =
              Returns-mono cost (cost w + p) (cost w + (max_loops - count) + p)
                (some (final_turn peers count ms stats w)) (omega arith)
                (final_turn-Returns count ms stats w) in
            ground (arith, r)
        | inl e ↦
            let below : count < max_loops = ground arith in
            let made = peers.create false ms w in
            let c = created false ms w in
            elim (Option-cases (made.0)) [
              | inl g ↦ ground arith
              | inr (r, g) ↦ elim (Bool-cases (asks_for_tools r.stop_reason)) [
                | inr h ↦ ground (arith, ends-append ms r.content)
                | inl h ↦
                    let turn = turn_results peers r.content (made.1) in
                    let ms' = (ms ++ assistant r.content ∷ []) ++ tool_results (turn.0.0) ∷ [] in
                    let stats' = called (turn.0.1) (spent r stats) in
                    let t = turned r.content (made.1) in
                    let rest =
                      loop_from-Returns fuel max_loops (count + 1) ms' stats' (turn.1) (omega arith)
                        (omega arith) in
                    let r' =
                      Returns-mono cost (cost turn.1 + (max_loops - (count + 1)) + p)
                        (cost w + (max_loops - count) + p)
                        (loop_from peers fuel max_loops (count + 1) ms' stats' (turn.1))
                        (omega arith) rest in
                    ground (arith, r')
              ]
            ]
      ]

module _ {W : Type 0} (peers : Peers W) (cost : W → ℕ)
    (handled : (b : ToolUse) (w : W)
      → cost (peers.handler b.name b.input w).1 ≤ cost w + (if is_write b then 1 else 0)) where
  run_single_tool_cost :
      (b : ToolUse) (w : W)
      → cost (run_single_tool peers b w).1 ≤ cost w + (if is_write b then 1 else 0)
  unfolding run_single_tool
  run_single_tool_cost b w = elim (Bool-cases (is_known b.name)) [
    | inl e ↦ ground (arith, handled b w)
    | inr e ↦ ground arith
  ]

  run_tools_cost :
      (bs : List ToolUse) (w : W) → cost (run_tools peers bs w).1 ≤ cost w + writes_in bs
  unfolding run_tools
  run_tools_cost [] w = omega arith
  run_tools_cost (b ∷ bs) w =
      omega (arith, run_single_tool_cost b w, run_tools_cost bs (run_single_tool peers b w).1)

  turn_results_cost :
      (content : List Block) (w : W) → cost (turn_results peers content w).1 ≤ cost w + 1
  unfolding turn_results
  turn_results_cost content w = omega (
    arith,
    run_tools_cost (split_writes false (tool_blocks content)).0 w,
    split_writes-one (tool_blocks content),
  )

  -- In a turn, each id of a tool call of the model gets as many results as it has calls, and the
  -- tools that run write at most once, where a tool that is a write writes at most once and no other
  -- tool writes.
  pub turn_results_lem :
      (id : String) (content : List Block) (w : W)
      → let ((results, calls), w') = turn_results peers content w in
        (times id (result_ids results) ≡ times id (use_ids (tool_blocks content)))
        × (cost w' ≤ cost w + 1)
  turn_results_lem id content w =
      (turn_results-times peers id content w, turn_results_cost content w)

module _ {W : Type 0} (peers : Peers W) (cost : W → ℕ)
    (handled : (name input : String) (w : W) → cost (peers.handler name input w).1 ≡ cost w) where
  run_tools_free : (bs : List ToolUse) (w : W) → cost (run_tools peers bs w).1 ≡ cost w
  unfolding run_tools run_single_tool
  run_tools_free [] w = refl
  run_tools_free (b ∷ bs) w = elim (Bool-cases (is_known b.name)) [
    | inl e ↦
        ground
          (arith, handled b.name b.input w, run_tools_free bs (peers.handler b.name b.input w).1)
    | inr e ↦ ground (arith, run_tools_free bs w)
  ]

  turn_results_free :
      (content : List Block) (w : W) → cost (turn_results peers content w).1 ≤ cost w + 0
  unfolding turn_results
  turn_results_free content w =
      omega (arith, run_tools_free (split_writes false (tool_blocks content)).0 w)

-- With more fuel than the loop's limit, the loop gives a result; it has called the model at most once
-- more than the limit, and an answer ends in a message of the model. A call of the model counts as
-- one, and the tools make none.
pub run_agent_loop_ends :
    {W : Type 0} (peers : Peers W) (calls : W → ℕ) (fuel max_loops : ℕ) (messages : List Message)
    (w : W)
    → ((b : Bool) (ms : List Message) (v : W) → calls (peers.create b ms v).1 ≤ calls v + 1)
    → ((name input : String) (v : W) → calls (peers.handler name input v).1 ≡ calls v)
    → max_loops < fuel
    → Returns calls (calls w + max_loops + 1) (run_agent_loop peers fuel max_loops messages w)
unfolding run_agent_loop
run_agent_loop_ends peers calls fuel max_loops messages w created handled enough =
    Returns-mono calls (calls w + (max_loops - 0) + 1) (calls w + max_loops + 1)
      (loop_from peers fuel max_loops 0 messages new_stats w) (omega arith)
      (loop_from-Returns peers calls 1 0 (omega arith) created
        (turn_results_free peers calls handled) fuel max_loops 0 messages new_stats w (omega arith)
        (omega arith))

-- With more fuel than the loop's limit, the tools have written at most as often as the limit, where a
-- tool that is a write writes at most once, and no other tool and no call of the model writes.
pub run_agent_loop_writes :
    {W : Type 0} (peers : Peers W) (writes : W → ℕ) (fuel max_loops : ℕ) (messages : List Message)
    (w : W)
    → ((b : Bool) (ms : List Message) (v : W) → writes (peers.create b ms v).1 ≡ writes v)
    → ((b : ToolUse) (v : W)
        → writes (peers.handler b.name b.input v).1 ≤ writes v + (if is_write b then 1 else 0))
    → max_loops < fuel
    → Returns writes (writes w + max_loops) (run_agent_loop peers fuel max_loops messages w)
unfolding run_agent_loop
run_agent_loop_writes peers writes fuel max_loops messages w created handled enough =
    Returns-mono writes (writes w + (max_loops - 0) + 0) (writes w + max_loops)
      (loop_from peers fuel max_loops 0 messages new_stats w) (omega arith)
      (loop_from-Returns peers writes 0 1 (omega arith) (λ b ms v. omega (arith, created b ms v))
        (turn_results_cost peers writes handled) fuel max_loops 0 messages new_stats w (omega arith)
        (omega arith))
