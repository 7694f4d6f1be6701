-- ===== src/Lib.antt =====
-- optorch is a framework that runs workflows of language-model calls. This library models parts of
-- its Python code and proves properties of them.
--
-- The parts that are modelled, each in a module named for it, with the proofs in its child modules
-- and the runs on concrete inputs in a child named Tests:
--
-- - Base: what the modules share. Tests on numbers and texts, lists, Base.Dict for Python's dict
--   with string keys, Base.Texts for the splitting of texts at colons, Outcome for a call that
--   returns or raises.
-- - Resilience.Breaker models CircuitBreakerStrategy of
--   storage/resilience/strategies/circuit_breaker.py: the record CircuitBreaker holds its mutable
--   fields, and execute, on_success and on_failure are its methods. Resilience.Backoff models
--   RetryStrategy of storage/resilience/strategies/retry.py.
-- - Authentication.RateLimiter models SlidingWindowRateLimiter of
--   identity/authentication/rate_limiter.py: Limiter holds its two tables, and each method takes
--   the time that it reads. Authentication.Middleware models RateLimitMiddleware of the same file.
-- - Authentication.Manager models authenticate of AuthenticationManager in
--   identity/authentication/manager.py, which asks the rate limiter, the health checker
--   (Authentication.Health, identity/authentication/health_check.py), the providers in the order of
--   their priorities, and the fallback strategies (Authentication.Fallback,
--   identity/authentication/fallback_handler.py); Authentication.Credentials is what it reads of a
--   request. Authentication.KeyRotation models KeyRotationManager of
--   identity/authentication/key_rotation.py, whose storage may fail to load and to save.
-- - Registry models registry.py, the table by name. Protection models identity/protection:
--   Protection.Rules the registry of rules, Protection.Enforcement the strategies and their
--   registry, Protection.Permissions the method _parse_permission, and Protection.Manager check,
--   require and get_accessible_resources of ProtectionManager. The identity manager that they ask
--   is a function.
-- - Constraints models identity/authorization/constraints: Constraints.Models the context of an
--   access, Constraints.Time, Constraints.Location, Constraints.Resource and Constraints.Context
--   the evaluate methods of the four classes, Constraints.Registry the methods create and
--   evaluate_all.
-- - Authorization.Memory models identity/authorization/providers/memory.py: Policies is the field
--   policies, and add_policy, check_permission and list_policies are the methods.
-- - Licensing.Usage models identity/licensing/usage/memory.py: Counters is the field _counters, and
--   each method takes the date that it reads.
-- - History.Filters models history/filters: MessageFilter has a constructor for each class that
--   looks at messages one by one, keeps is the test of its loop, filter_all is the method of
--   CompositeFilter, and filter_duplicates that of DuplicateFilter.
-- - Llm.Lifecycle models llm/lifecycle: the processors of an LLM call, phase by phase (execute_hook
--   is _execute_hook, execute is execute, resume_lifecycle is the callback that a stream gets), the
--   choice of processors by substates, and in Llm.Lifecycle.Registry the method register_processor.
-- - Llm.ToolExecutor models process of llm/processors/tool_executor.py, the loop that runs tools
--   and asks the model again; its rounds are counted down from max_iterations. Llm.ToolResultCache
--   models process of llm/processors/tool_result_cache.py. Llm.Pool models invoke and
--   _invoke_sequential of LLMPool in llm/llm_pool.py with the strategies of llm/pool; requests
--   follow one another.
-- - Provisioning.FilterParser models SCIMFilterParser and Provisioning.Pagination SCIMPagination of
--   identity/provisioning/filter_parser.py; Provisioning.Words is what they use of texts, and
--   Provisioning.FilterParser.Clauses describes the clauses that the parser builds.
-- - Workflow is the engine of workflows. Workflow.State models State of state/state.py;
--   Workflow.Failures and Workflow.Retry model retry/failure_type_registry.py and
--   execute_with_retry of retry/retry_handler.py; Workflow.Routing models RouteResolver of
--   routing/route_resolver.py; Workflow.Intents and Workflow.Lifecycle model IntentRegistry of
--   intents/intent_registry.py and LifecycleExecutor of lifecycle/lifecycle_executor.py; and
--   Workflow.Dispatch models dispatch of NodeController in controller/node_controller.py, which
--   runs a node through them and calls itself for the next one.
-- - Configuration.Merger models config/merger.py, on nested dicts, and Configuration.Manager models
--   get, set and register_config of ConfigManager in config/manager.py: the namespaces of the
--   provider, the models with their defaults, and the overrides at run time, which set writes and
--   get merges in.
-- - Events.Listeners models ListenerManager of events/listener_manager.py, the table of listeners
--   by priority.
--
-- Conventions. Times are natural numbers of clock ticks, or of microseconds where the source uses
-- datetime, and a method takes the times that it reads as arguments. Calls into databases, models
-- and callbacks are functions that act on a world and return or raise. Floating-point numbers are a
-- type parameter with the operations that the code uses. Settings that count something are natural
-- numbers: negative settings, which the source does not exclude everywhere, are outside the model.
-- Every loop is a recursion on a list or on the number of rounds left, so no fuel is needed, except
-- in the chain of nodes, which need not end, so that dispatch takes a bound on its calls, and in
-- the parser of filters: parse_expression recurses on a depth, and parse gives it one more than the
-- length of the filter, which is enough since each part is shorter than the whole. Logging and the
-- emission of events are left out.
--
-- Not modelled: the drivers of databases, brokers and model providers, the parsers of
-- configuration, and what merely connects the parts, since they are input and output or hold no
-- logic of their own; and, so far, the other managers of identity, the other providers and
-- validators of licensing, the emission of events, the graph of nodes, error handling, sessions and
-- the responses of language models.
pub mod Authentication
pub mod Authorization
pub mod Base
pub mod Configuration
pub mod Constraints
pub mod Events
pub mod History
pub mod Licensing
pub mod Llm
pub mod Protection
pub mod Provisioning
pub mod Registry
pub mod Resilience
pub mod Workflow
