-- ===== src/History/Filters/Composite.antt =====
-- What a composition of filters keeps.
use optorch.Base.{◌≡◌, refl, ◌∙◌, Bool, true, ◌&&◌, String, List, [], ◌∷◌, keep, all, arith}
use optorch.History.Filters.{Message, MessageFilter, keeps, filter, filter_all}

keep-true : (messages : List Message) → messages ≡ keep (λ msg. true) messages
unfolding keep
keep-true [] = refl
keep-true (msg ∷ messages) = ground (arith, keep-true messages)

keep-both :
    (p q : Message → Bool) (messages : List Message)
    → keep q (keep p messages) ≡ keep (λ msg. p msg && q msg) messages
unfolding keep
keep-both p q [] = refl
keep-both p q (msg ∷ messages) = ground (arith, keep-both p q messages)

-- A composite filter keeps, in their order, exactly the messages that each of its filters keeps: the
-- order of the filters does not matter.
pub filter_all-keep :
    (lower : String → String) (filters : List MessageFilter) (messages : List Message)
    → filter_all lower filters messages
      ≡ keep (λ msg. all (λ f. keeps lower f msg) filters) messages
unfolding filter_all filter all
filter_all-keep lower [] messages = keep-true messages
filter_all-keep lower (f ∷ filters) messages =
    filter_all-keep lower filters (keep (keeps lower f) messages)
    ∙ keep-both (keeps lower f) (λ msg. all (λ g. keeps lower g msg) filters) messages
