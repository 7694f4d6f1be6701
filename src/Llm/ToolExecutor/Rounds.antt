-- ===== src/Llm/ToolExecutor/Rounds.antt =====
-- The rounds of `process`: what is run, appended and asked in each.

use optorch.Base.{
  ◌≡◌, ◌≢◌, ◌≤◌, ◌⊎◌, inl, inr, refl, sym, ap, subst, ◌∙◌, ℕ, zero, suc, ◌+◌, String, List, [], ◌∷◌,
  ◌++◌, map, Option, none, some, Outcome, ok, raise, arith,
}
use optorch.Llm.ToolExecutor.{
  ToolCall, Response, Message, assistant, Client, Controller, Failure, no_client, raised, Context,
  Result, calls_of, content_of, run_tool, run_tools, replies, with_substates, with_response,
  invoked, ask_with, ask_again, answered, iterate, loop, with_controller, with_tools, with_calls,
  process, max_iterations,
}

-- the messages after the tools have answered the calls of a response
abbrev pub with_answers :
    {A M : Type 0}
    → Option (Response A)
    → List (Option String × String)
    → List (Message A M)
    → List (Message A M)
with_answers response results messages =
    messages ++ assistant (content_of response) (calls_of response) ∷ replies results

-- every call of the response has an answer under its id, in the order of the calls
abbrev pub Answers : {A : Type 0} → Option (Response A) → List (Option String × String) → Type 0
Answers response results =
    map (λ r. r.0) results ≡ map (λ (call : ToolCall _). call.tool_id) (calls_of response)

-- A run of rounds, from a response, messages and a world to an outcome with others. The numbers are that of the first
-- round and that of the requests to the model. In a round all calls of the response are run and answered, and then the
-- model is asked with the messages so far; its answer is the response of the next round.
pub data Rounds {E W A M : Type 0} (controller : Controller E W A)
    (client : Option (Client E W A M)) (tools : List String)
    : ℕ
      → ℕ
      → Option (Response A)
      → List (Message A M)
      → W
      → Outcome (Failure E) Unit
      → Option (Response A)
      → List (Message A M)
      → W
      → Type 0 where
  no_round :
      (iteration : ℕ) (response : Option (Response A)) (messages : List (Message A M)) (world : W)
      → Rounds controller client tools iteration 0 response messages world
          (ok tt)
          response
          messages
          world
  round :
      (iteration n : ℕ) (response : Option (Response A)) (messages : List (Message A M)) (world : W)
      (results : List (Option String × String)) (between : W) (asked : Client E W A M)
      (answer : Response A) (after : W) (outcome : Outcome (Failure E) Unit)
      (last : Option (Response A)) (final : List (Message A M)) (end : W)
      → calls_of response ≢ []
      → run_tools controller (calls_of response) world ≡ (results, between)
      → Answers response results
      → client ≡ some asked
      → asked.raw_invoke tools (with_answers response results messages) between ≡ (ok answer, after)
      → Rounds controller client tools
          (iteration + 1)
          n
          (some answer)
          (with_answers response results messages)
          after
          outcome
          last
          final
          end
      → Rounds controller client tools iteration
          (suc n)
          response
          messages
          world
          outcome
          last
          final
          end
  failed_round :
      (iteration : ℕ) (response : Option (Response A)) (messages : List (Message A M)) (world : W)
      (results : List (Option String × String)) (between : W) (asked : Client E W A M) (error : E)
      (after : W)
      → calls_of response ≢ []
      → run_tools controller (calls_of response) world ≡ (results, between)
      → Answers response results
      → client ≡ some asked
      → asked.raw_invoke tools (with_answers response results messages) between
        ≡ (raise error, after)
      → Rounds controller client tools iteration 1 response messages world
          (raise (raised error))
          response
          (with_answers response results messages)
          after
  unasked_round :
      (iteration : ℕ) (response : Option (Response A)) (messages : List (Message A M)) (world : W)
      (results : List (Option String × String)) (between : W)
      → calls_of response ≢ []
      → run_tools controller (calls_of response) world ≡ (results, between)
      → Answers response results
      → client ≡ none
      → Rounds controller client tools iteration 0 response messages world
          (raise (no_client iteration))
          response
          (with_answers response results messages)
          between

run_tools-ids :
    {E W A : Type 0} (controller : Controller E W A) (calls : List (ToolCall A)) (world : W)
    → map (λ r. r.0) (run_tools controller calls world).0
      ≡ map (λ (call : ToolCall A). call.tool_id) calls
unfolding run_tools
run_tools-ids controller [] world = refl
run_tools-ids controller (call ∷ calls) world =
    ap (λ ids. call.tool_id ∷ ids)
      (run_tools-ids controller calls (run_tool controller call world).1)

module _ {E W A M : Type 0} (controller : Controller E W A) (client : Option (Client E W A M))
    (tools : List String) where
  -- What a run of at most `rounds` rounds is, and how it ends when it raises nothing: with a response that asks for no
  -- tool, or with no round left.
  pub record IsRun (rounds iteration : ℕ) (c : Context E W A M) (world : W)
      (result : Result E W A M) : Type 0 where
    pub requests : ℕ
    pub bounded : requests ≤ rounds
    pub run :
        Rounds controller client tools iteration requests c.response c.messages world result.0
          result.1.response result.1.messages result.2
    pub ended : result.0 ≡ ok tt → (calls_of result.1.response ≡ []) ⊎ (requests ≡ rounds)

  -- the run keeps to the client and the tools
  abbrev IsLoop : ℕ → ℕ → (Context E W A M → W → Result E W A M) → Type 0
  IsLoop rounds iteration next =
      (c : Context E W A M) (world : W)
      → c.client ≡ client
      → c.tools ≡ tools
      → IsRun rounds iteration c world (next c world)

  stopped :
      (rounds iteration : ℕ) (c : Context E W A M) (world : W)
      → (calls_of c.response ≡ []) ⊎ (0 ≡ rounds)
      → IsRun rounds iteration c world (ok tt, c, world)
  stopped rounds iteration c world h = record {
    requests = 0;
    bounded = omega arith;
    run = no_round iteration c.response c.messages world;
    ended = λ _. h;
  }

  -- a round, with the run that follows it when the model has answered
  asked-IsRun :
      (rounds iteration : ℕ) (c : Context E W A M) (world : W)
      (results : List (Option String × String)) (between : W) (substates original : List String)
      (next : Context E W A M → W → Result E W A M)
      → calls_of c.response ≢ []
      → run_tools controller (calls_of c.response) world ≡ (results, between)
      → Answers c.response results
      → c.client ≡ client
      → c.tools ≡ tools
      → IsLoop rounds (iteration + 1) next
      → (o : Option (Client E W A M)) → o ≡ client
      → IsRun (suc rounds) iteration c world (
          ask_with o iteration original
            (with_substates substates
              (record c { messages = with_answers c.response results c.messages }))
            between
            next)
  unfolding ask_with invoked
  asked-IsRun rounds iteration c world results between substates original next some_call ran ids
        same_client same_tools h none e =
      record {
        requests = 0;
        bounded = omega arith;
        run =
            unasked_round iteration c.response c.messages world results between some_call ran ids
              (sym e);
        ended = λ done. ground (arith, done);
      }
  asked-IsRun rounds iteration c world results between substates original next some_call ran ids
        same_client same_tools h (some asked) e =
      go (asked.raw_invoke c.tools (with_answers c.response results c.messages) between) (
        ap (λ t. asked.raw_invoke t (with_answers c.response results c.messages) between)
          (sym same_tools))
    where
      c' : Context E W A M
      c' =
          with_substates substates
            (record c { messages = with_answers c.response results c.messages })

      before :
          (result : Result E W A M) (answer : Response A) (after : W)
          → asked.raw_invoke tools (with_answers c.response results c.messages) between
            ≡ (ok answer, after)
          → IsRun rounds
              (iteration + 1)
              (with_substates original (with_response answer c'))
              after
              result
          → IsRun (suc rounds) iteration c world result
      before result answer after was_asked later = record {
        requests = suc later.requests;
        bounded = omega (arith, later.bounded);
        run =
            round iteration later.requests c.response c.messages world results between asked answer
              after result.0 result.1.response result.1.messages result.2 some_call ran ids (sym e)
              was_asked later.run;
        ended = λ done. elim (later.ended done) [
          | inl none_left ↦ inl none_left
          | inr all ↦ inr (ap suc all)
        ];
      }

      go :
          (answer : Outcome E (Response A) × W)
          → asked.raw_invoke tools (with_answers c.response results c.messages) between ≡ answer
          → IsRun (suc rounds) iteration c world (invoked original answer c' next)
      go (raise error, after) failed = record {
        requests = 1;
        bounded = omega arith;
        run =
            failed_round iteration c.response c.messages world results between asked error after
              some_call ran ids (sym e) failed;
        ended = λ done. ground (arith, done);
      }
      go (ok answer, after) was_asked =
          before _ answer after was_asked
            (h (with_substates original (with_response answer c')) after same_client same_tools)

  iterate-IsRun :
      (rounds iteration : ℕ) (calls : List (ToolCall A)) (c : Context E W A M) (world : W)
      (next : Context E W A M → W → Result E W A M)
      → calls_of c.response ≡ calls
      → c.client ≡ client
      → c.tools ≡ tools
      → IsLoop rounds (iteration + 1) next
      → IsRun (suc rounds) iteration c world (iterate controller iteration calls c world next)
  unfolding iterate answered ask_again
  iterate-IsRun rounds iteration [] c world next e same_client same_tools h =
      stopped (suc rounds) iteration c world (inl e)
  iterate-IsRun rounds iteration (call ∷ calls) c world next e same_client same_tools h =
      subst
        (λ (l : List (ToolCall A)).
          IsRun (suc rounds) iteration c world
            (answered iteration l (run_tools controller l world) c next))
        e
        (asked-IsRun rounds iteration c world (run_tools controller (calls_of c.response) world).0
          (run_tools controller (calls_of c.response) world).1 ("tool_result" ∷ [])
          c.active_substates next (λ none_left. ground (arith, sym e ∙ none_left)) refl
          (run_tools-ids controller (calls_of c.response) world) same_client same_tools h c.client
          same_client)

  loop-IsRun : (rounds iteration : ℕ) → IsLoop rounds iteration (loop controller rounds iteration)
  unfolding loop
  loop-IsRun zero iteration c world same_client same_tools = stopped 0 iteration c world (inr refl)
  loop-IsRun (suc rounds) iteration c world same_client same_tools =
      iterate-IsRun rounds iteration (calls_of c.response) c world _ refl same_client same_tools
        (loop-IsRun rounds (iteration + 1))

-- With a controller and with tools configured, a call of `process` is a run of rounds with at most ten requests to the
-- model. In each round all calls of the last response are run, that response and an answer to each of its calls, in
-- their order, are appended to the messages, and then the model is asked once with all of these; without a client, or
-- when the model raises, the run ends there with an exception. When `process` raises nothing, it ended because the last
-- response asks for no tool, or after exactly ten requests.
pub process-IsRun :
    {E W A M : Type 0} (c : Context E W A M) (world : W) (controller : Controller E W A)
    → c.tools ≢ []
    → c.controller ≡ some controller
    → IsRun controller c.client c.tools max_iterations 1 c world (process c world)
unfolding process with_calls with_tools with_controller
process-IsRun {E} {W} {A} {M} c world controller configured controlled =
    start (calls_of c.response) refl
  where
    IsProcess : Result E W A M → Type 0
    IsProcess = IsRun controller c.client c.tools max_iterations 1 c world

    tooled : (tools : List String) → tools ≢ [] → IsProcess (with_tools tools c world)
    tooled [] h = absurd (h refl)
    tooled (name ∷ names) h =
        subst (λ o. IsProcess (with_controller o c world)) (sym controlled)
          (loop-IsRun controller c.client c.tools max_iterations 1 c world refl refl)

    start :
        (calls : List (ToolCall A))
        → calls_of c.response ≡ calls
        → IsProcess (with_calls calls c world)
    start [] e = stopped controller c.client c.tools max_iterations 1 c world (inl e)
    start (call ∷ calls) e = tooled c.tools configured
