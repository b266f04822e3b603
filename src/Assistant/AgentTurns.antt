-- ===== src/Assistant/AgentTurns.antt =====
-- Turns and ends of the loop of services/assistant-service/app/agent/loop.py.
use market_place_app.Prelude.{
  ℕ, ◌+◌, ◌≤◌, ◌≡◌, refl, String, Bool, true, false, List, [], ◌∷◌, ◌++◌, map, str_eq, arith,
  Bool-cases, inl, inr, if◌then◌else◌,
}
use market_place_app.Assistant.Agent.{
  ToolUse, Block, ToolResult, Peers, is_known, is_write, tool_blocks, split_writes, skipped,
  run_single_tool, run_tools, turn_results,
}

-- How often an id occurs.
abbrev pub times : String → List String → ℕ
times id [] = 0
times id (x ∷ xs) = (if str_eq x id then 1 else 0) + times id xs

abbrev pub use_ids : List ToolUse → List String
use_ids bs = map (λ (b : ToolUse). b.id) bs

abbrev pub result_ids : List ToolResult → List String
result_ids rs = map (λ (r : ToolResult). r.tool_use_id) rs

-- How many of the tools are writes.
abbrev pub writes_in : List ToolUse → ℕ
writes_in [] = 0
writes_in (b ∷ bs) = (if is_write b then 1 else 0) + writes_in bs

split_writes-times :
    (id : String) (seen : Bool) (bs : List ToolUse)
    → times id (use_ids (split_writes seen bs).0) + times id (use_ids (split_writes seen bs).1)
      ≡ times id (use_ids bs)
unfolding split_writes
split_writes-times id seen [] = refl
split_writes-times id true (b ∷ bs) = ground (arith, split_writes-times id true bs)
split_writes-times id false (b ∷ bs) =
    ground (arith, split_writes-times id true bs, split_writes-times id false bs)

-- No write runs after one was seen, and at most one runs in a turn.
split_seen-writes : (bs : List ToolUse) → writes_in (split_writes true bs).0 ≡ 0
unfolding split_writes
split_seen-writes [] = refl
split_seen-writes (b ∷ bs) = ground (arith, split_seen-writes bs)

pub split_writes-one : (bs : List ToolUse) → writes_in (split_writes false bs).0 ≤ 1
unfolding split_writes
split_writes-one [] = omega arith
split_writes-one (b ∷ bs) = ground (arith, split_seen-writes bs, split_writes-one bs)

times-append :
    (id : String) (xs ys : List ToolResult)
    → times id (result_ids (xs ++ ys)) ≡ times id (result_ids xs) + times id (result_ids ys)
times-append id [] ys = omega arith
times-append id (x ∷ xs) ys = omega (arith, times-append id xs ys)

times-skipped :
    (id : String) (bs : List ToolUse)
    → times id (result_ids (map skipped bs)) ≡ times id (use_ids bs)
times-skipped id [] = refl
times-skipped id (b ∷ bs) = omega (arith, times-skipped id bs)

module _ {W : Type 0} (peers : Peers W) where
  run_single_tool_id : (b : ToolUse) (w : W) → (run_single_tool peers b w).0.tool_use_id ≡ b.id
  unfolding run_single_tool
  run_single_tool_id b w = elim (Bool-cases (is_known b.name)) [
    | inl e ↦ ground arith
    | inr e ↦ ground arith
  ]

  run_tools-times :
      (id : String) (bs : List ToolUse) (w : W)
      → times id (result_ids (run_tools peers bs w).0) ≡ times id (use_ids bs)
  unfolding run_tools
  run_tools-times id [] w = refl
  run_tools-times id (b ∷ bs) w =
      ground (arith, run_single_tool_id b w, run_tools-times id bs (run_single_tool peers b w).1)

  pub turn_results-times :
      (id : String) (content : List Block) (w : W)
      → times id (result_ids (turn_results peers content w).0.0)
        ≡ times id (use_ids (tool_blocks content))
  unfolding turn_results
  turn_results-times id content w =
      let parts = split_writes false (tool_blocks content) in
      omega (
        arith,
        times-append id (run_tools peers (parts.0) w).0 (map skipped (parts.1)),
        times-skipped id (parts.1),
        run_tools-times id (parts.0) w,
        split_writes-times id false (tool_blocks content),
      )
