-- ===== src/Llm/ToolExecutor/Substates.antt =====
-- The substates after `process`.
use optorch.Base.{
  ◌≡◌, ◌⊎◌, inl, inr, refl, sym, ℕ, zero, suc, ◌+◌, String, List, [], ◌∷◌, Option, none, some,
  Outcome, ok, raise,
}
use optorch.Llm.ToolExecutor.{
  ToolCall, Response, Client, Controller, no_client, Context, Result, calls_of, run_tools,
  with_substates, with_response, invoked, ask_with, ask_again, answered, iterate, loop,
  with_controller, with_tools, with_calls, process, max_iterations,
}

module _ {E W A M : Type 0} (original : List String) (client : Option (Client E W A M)) where
  -- The substates are the original ones, or there was no client and they are those of a tool round.
  abbrev Keeps : Result E W A M → Type 0
  Keeps (outcome, c, world) =
      (c.active_substates ≡ original)
      ⊎ ((client ≡ none)
          × (c.active_substates ≡ "tool_result" ∷ [])
          × ((iteration : ℕ) × (outcome ≡ raise (no_client iteration))))

  abbrev KeepsAll : (Context E W A M → W → Result E W A M) → Type 0
  KeepsAll next =
      (c : Context E W A M) (world : W)
      → c.client ≡ client
      → c.active_substates ≡ original
      → Keeps (next c world)

  ask_with-Keeps :
      (o : Option (Client E W A M)) (iteration : ℕ) (s : List String) (c : Context E W A M)
      (world : W) (next : Context E W A M → W → Result E W A M)
      → o ≡ client
      → c.client ≡ client
      → c.active_substates ≡ "tool_result" ∷ []
      → s ≡ original
      → KeepsAll next
      → Keeps (ask_with o iteration s c world next)
  unfolding ask_with invoked
  ask_with-Keeps none iteration s c world next asked same substates e h =
      inr (sym asked, substates, (iteration, refl))
  ask_with-Keeps (some cl) iteration s c world next asked same substates e h =
      go (cl.raw_invoke c.tools c.messages world)
    where
      go : (answer : Outcome E (Response A) × W) → Keeps (invoked s answer c next)
      go (raise error, w) = inl e
      go (ok response, w) = h (with_substates s (with_response response c)) w same e

  iterate-Keeps :
      (controller : Controller E W A) (iteration : ℕ) (calls : List (ToolCall A))
      (c : Context E W A M) (world : W) (next : Context E W A M → W → Result E W A M)
      → c.client ≡ client
      → c.active_substates ≡ original
      → KeepsAll next
      → Keeps (iterate controller iteration calls c world next)
  unfolding iterate answered ask_again
  iterate-Keeps controller iteration [] c world next same e h = inl e
  iterate-Keeps controller iteration (call ∷ calls) c world next same e h =
      let (results, w) = run_tools controller (call ∷ calls) world in
      ask_with-Keeps c.client iteration c.active_substates _ w next same same refl e h

  loop-Keeps :
      (controller : Controller E W A) (rounds iteration : ℕ)
      → KeepsAll (loop controller rounds iteration)
  unfolding loop
  loop-Keeps controller zero iteration c world same e = inl e
  loop-Keeps controller (suc rounds) iteration c world same e =
      iterate-Keeps controller iteration (calls_of c.response) c world _ same e
        (loop-Keeps controller rounds (iteration + 1))

-- After `process` the active substates are those of before, also when a call of the model raised. Otherwise the context
-- has no client, `process` has raised for that, and the substates are "tool_result" alone.
pub process-active_substates :
    {E W A M : Type 0} (c : Context E W A M) (world : W)
    → ((process c world).1.active_substates ≡ c.active_substates)
      ⊎ ((c.client ≡ none)
          × ((process c world).1.active_substates ≡ "tool_result" ∷ [])
          × ((iteration : ℕ) × ((process c world).0 ≡ raise (no_client iteration))))
unfolding process with_calls with_tools with_controller
process-active_substates {E} {W} {A} {M} c world = start (calls_of c.response)
  where
    controlled :
        (o : Option (Controller E W A))
        → Keeps c.active_substates c.client (with_controller o c world)
    controlled none = inl refl
    controlled (some controller) =
        loop-Keeps c.active_substates c.client controller max_iterations 1 c world refl refl

    tooled : (tools : List String) → Keeps c.active_substates c.client (with_tools tools c world)
    tooled [] = inl refl
    tooled (name ∷ names) = controlled c.controller

    start :
        (calls : List (ToolCall A)) → Keeps c.active_substates c.client (with_calls calls c world)
    start [] = inl refl
    start (call ∷ calls) = tooled c.tools
