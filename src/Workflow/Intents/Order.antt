-- ===== src/Workflow/Intents/Order.antt =====
-- Which intents run.
use optorch.Base.{
  ◌≡◌, refl, Bool, true, false, String, List, [], ◌∷◌, Option, none, some, Outcome, ok, raise,
  if◌then◌else◌, keep, sym, ap, ◌∙◌,
}
use optorch.Base.Dict
use optorch.Base.Dict.{Dict}
use optorch.Workflow.Intents.{
  Given, IntentContext, IntentHandler, IntentRegistry, Results, Executed, execute, after_intent,
  execute_multiple,
}

-- the loop goes on alike where the others do
after_intent_cong :
    {E W : Type 0} (name : String) (results : Results)
    (result : Outcome E (IntentContext × Option Given) × W)
    (f g : IntentContext → Results → W → Executed E W)
    → ((context : IntentContext) (kept : Results) (world : W)
        → f context kept world ≡ g context kept world)
    → after_intent name results result f ≡ after_intent name results result g
unfolding after_intent
after_intent_cong name results (raise error, world) f g same = refl
after_intent_cong name results (ok (context, given), world) f g same =
    ap
      (λ later.
        if context.skip_execution
        then (ok (context, Dict.insert name given results), world)
        else later)
      (same context (Dict.insert name given results) world)

-- Names without a handler are skipped: the loop does the same for the names of the handlers alone, in their order.
pub execute_multiple-keep :
    {E W : Type 0} (handlers : IntentRegistry E W) (intent_names : List String)
    (context : IntentContext) (results : Results) (world : W)
    → execute_multiple handlers intent_names context results world
      ≡ execute_multiple handlers
          (keep (λ name. Dict.has name handlers) intent_names)
          context
          results
          world
unfolding execute_multiple keep
execute_multiple-keep handlers [] context results world = refl
execute_multiple-keep {E = E} {W = W} handlers (name ∷ names) context results world =
    by_handler (Dict.get name handlers) refl (execute_multiple-keep handlers names)
    ∙ ap
        (λ (known : Bool).
          execute_multiple handlers (if known then name ∷ others else others) context results world)
        (sym (Dict.has-get name handlers))
  where
    others : List String
    others = keep (λ name. Dict.has name handlers) names

    run : Option (IntentHandler E W) → List String → Executed E W
    run found rest = elim found [
      | none ↦ execute_multiple handlers rest context results world
      | some handler ↦
          after_intent name results (execute handler context world) (execute_multiple handlers rest)
    ]

    known : Option (IntentHandler E W) → Bool
    known found = elim found [ none ↦ false | some _ ↦ true ]

    by_handler :
        (found : Option (IntentHandler E W))
        → Dict.get name handlers ≡ found
        → ((c : IntentContext) (r : Results) (w : W)
            → execute_multiple handlers names c r w ≡ execute_multiple handlers others c r w)
        → run found names
          ≡ execute_multiple handlers
              (if known found then name ∷ others else others)
              context
              results
              world
    by_handler none e same = same context results world
    by_handler (some handler) e same =
        after_intent_cong name results (execute handler context world)
          (execute_multiple handlers names) (execute_multiple handlers others) same
        ∙ ap (λ (h : Option (IntentHandler E W)). run h others) (sym e)
