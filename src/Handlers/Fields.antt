-- ===== src/Handlers/Fields.antt =====
-- What is read off the messages that the handlers build, and off a log.
use Prim.Native.String.{String}
use db_proxy_server.Prelude.{ℕ, ◌==◌, Option, none, some, List, [], ◌∷◌, if◌then◌else◌}
use db_proxy_server.HttpTask.{text_eq}
use db_proxy_server.Handlers.Program.{
  Cell, text, Row, Built, end, set_field, add_field, add_message, add_parsed, rewritten, respond,
  fetch,
}
use db_proxy_server.Handlers.Run.{Event}

-- The value that a message is given for a field, which the handlers set once.
abbrev pub field_of : String → Built → Option Cell
field_of f end = none
field_of f (set_field g v rest) =
    let later = field_of f rest in if text_eq f g then some v else later
field_of f (add_field g v rest) = field_of f rest
field_of f (add_message g m rest) = field_of f rest
field_of f (add_parsed g bytes rest) = field_of f rest

-- The messages inside under a field.
abbrev pub inner : String → Built → List Built
inner f end = []
inner f (set_field g v rest) = inner f rest
inner f (add_field g v rest) = inner f rest
inner f (add_message g m rest) =
    let later = inner f rest in if text_eq f g then m ∷ later else later
inner f (add_parsed g bytes rest) = inner f rest

-- The results that are answered.
unfoldable pub codes : List Event → List (Option Cell)
codes [] = []
codes ((respond (rewritten cmd built), a) ∷ log) = field_of "result_code" built ∷ codes log
codes (_ ∷ log) = codes log

-- The rows that fetch_result of a statement found.
unfoldable pub fetched : ℕ → List Event → List Row
fetched s [] = []
fetched s ((fetch t, some row) ∷ log) =
    let later = fetched s log in if s == t then row ∷ later else later
fetched s (_ ∷ log) = fetched s log

-- What a row has in a column, with an empty text for NULL.
abbrev pub or_empty : Option Cell → Cell
or_empty none = text []
or_empty (some c) = c
