-- ===== src/History/Filters.antt =====
-- history/filters: filters of lists of messages, and their composition. Of a message the model has what the
-- filters read; `lower` is Python's `str.lower`.
pub mod Composite
pub mod Duplicates
mod Tests
use Prim.Native.String as S
use text.Mathlib.Text.{find?}
use optorch.Base.{
  Bool, true, false, not, ◌&&◌, ◌||◌, String, List, [], ◌∷◌, ℕ, leb, ltb, Option, none, some, elem,
  keep, any, if◌then◌else◌, ◌==◌,
}
use optorch.Base.Texts.{◌<>◌}

pub record Message : Type 0 where
  pub id : String
  pub role : String
  pub content : String
  pub timestamp : ℕ
  pub is_error : Bool
  pub is_tool_call : Bool
  pub is_tool_result : Bool

-- the filters that look at each message alone, with their settings
pub data MessageFilter : Type 0 where
  error_filter : Bool → MessageFilter
  length_filter : ℕ → ℕ → MessageFilter
  noise_filter : List String → MessageFilter
  role_filter : List String → List String → MessageFilter
  time_filter : Option ℕ → Option ℕ → MessageFilter
  tool_filter : Bool → Bool → MessageFilter

-- `part in text`
unfoldable pub contains : String → String → Bool
contains text part = elim (find? text part) [ none ↦ false | some position ↦ true ]

-- `patterns or default_patterns`
unfoldable pub patterns_or_default : List String → List String
patterns_or_default [] =
    "typing..." ∷ "is typing" ∷ "reconnecting" ∷ "connection lost" ∷ "connection restored" ∷ []
patterns_or_default (pattern ∷ patterns) = pattern ∷ patterns

unfoldable pub keeps_role : List String → List String → String → Bool
keeps_role [] blocked_roles role = if elem role blocked_roles then false else true
keeps_role (r ∷ allowed_roles) blocked_roles role =
    if elem role blocked_roles
    then false
    else if not (elem role (r ∷ allowed_roles))
    then false
    else true

abbrev pub is_before : ℕ → Option ℕ → Bool
is_before timestamp none = false
is_before timestamp (some after) = ltb timestamp after

abbrev pub is_after : ℕ → Option ℕ → Bool
is_after timestamp none = false
is_after timestamp (some before) = ltb before timestamp

unfoldable pub keeps_time : Option ℕ → Option ℕ → Message → Bool
keeps_time after before msg =
    if is_before msg.timestamp after
    then false
    else if is_after msg.timestamp before
    then false
    else true

unfoldable pub keeps_length : ℕ → ℕ → Message → Bool
keeps_length min_length max_length msg =
    leb min_length (S.count msg.content) && leb (S.count msg.content) max_length

unfoldable pub keeps_tool : Bool → Bool → Message → Bool
keeps_tool keep_tool_calls keep_tool_results msg =
    if msg.is_tool_call && not keep_tool_calls
    then false
    else if msg.is_tool_result && not keep_tool_results
    then false
    else true

module _ (lower : String → String) where
  unfoldable pub keeps_error : Bool → Message → Bool
  keeps_error keep_errors msg =
      if keep_errors then true else not msg.is_error && not (contains (lower msg.role) "error")

  unfoldable pub keeps_noise : List String → Message → Bool
  keeps_noise patterns msg =
      not (
        any (λ pattern. contains (lower msg.content) (lower pattern))
          (patterns_or_default patterns))

  -- whether the loop or comprehension of a filter keeps a message
  unfoldable pub keeps : MessageFilter → Message → Bool
  keeps (error_filter keep_errors) msg = keeps_error keep_errors msg
  keeps (length_filter min_length max_length) msg = keeps_length min_length max_length msg
  keeps (noise_filter patterns) msg = keeps_noise patterns msg
  keeps (role_filter allowed_roles blocked_roles) msg =
      keeps_role allowed_roles blocked_roles msg.role
  keeps (time_filter after before) msg = keeps_time after before msg
  keeps (tool_filter keep_tool_calls keep_tool_results) msg =
      keeps_tool keep_tool_calls keep_tool_results msg

  unfoldable pub filter : MessageFilter → List Message → List Message
  filter f messages = keep (keeps f) messages

  -- `CompositeFilter.filter`
  unfoldable pub filter_all : List MessageFilter → List Message → List Message
  filter_all [] messages = messages
  filter_all (f ∷ filters) messages = filter_all filters (filter f messages)

-- the key of a message in `DuplicateFilter`; an empty one counts as none
abbrev pub unless_empty : String → Option String
unless_empty key = if key == "" then none else some key

unfoldable pub duplicate_key : Bool → Bool → Message → Option String
duplicate_key by_content by_id msg =
    if by_id
    then unless_empty msg.id
    else if by_content
    then unless_empty (msg.role <> ":" <> msg.content)
    else none

-- one round of its loop, with the rest of it
unfoldable pub keep_unseen :
    Option String → Message → List String → (List String → List Message) → List Message
keep_unseen none msg seen rest = msg ∷ rest seen
keep_unseen (some key) msg seen rest = if elem key seen then rest seen else msg ∷ rest (key ∷ seen)

unfoldable pub unseen : (Message → Option String) → List Message → List String → List Message
unseen key [] seen = []
unseen key (msg ∷ messages) seen = keep_unseen (key msg) msg seen (unseen key messages)

unfoldable pub filter_duplicates : Bool → Bool → List Message → List Message
filter_duplicates by_content by_id messages = unseen (duplicate_key by_content by_id) messages []
