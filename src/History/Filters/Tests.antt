-- ===== src/History/Filters/Tests.antt =====
-- history/filters on concrete messages.
use optorch.Base.{◌≡◌, refl, true, false, String, List, [], ◌∷◌, elem}
use optorch.History.Filters.{Message, filter_duplicates, duplicate_key, unseen, keep_unseen}
use optorch.History.Filters.Duplicates.{firsts, filter_duplicates-firsts}

abbrev message : String → String → Message
message role content = record {
  id = "";
  role = role;
  content = content;
  timestamp = 0;
  is_error = false;
  is_tool_call = false;
  is_tool_result = false;
}

abbrev messages : List Message
messages = message "user" "hello" ∷ message "user" "hello" ∷ message "system" "x" ∷ []

duplicates :
    filter_duplicates true false messages ≡ message "user" "hello" ∷ message "system" "x" ∷ []
unfolding filter_duplicates unseen keep_unseen duplicate_key elem
duplicates = refl

filter_duplicates-firsts_example :
    (filter_duplicates true false messages ≡ firsts (duplicate_key true false) messages [])
    × (filter_duplicates true false (filter_duplicates true false messages)
        ≡ filter_duplicates true false messages)
filter_duplicates-firsts_example = filter_duplicates-firsts true false messages
