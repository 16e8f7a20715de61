-- ===== src/Handlers/Program/Values.antt =====
-- The values of the handlers: their variables and the rows that they are filled with, texts that are put
-- together, and messages of protobuf that are parsed or built.
use Prim.Native.String.{String}
use db_proxy_server.Prelude.{
  ℕ, zero, suc, ◌+◌, ◌%◌, ◌^◌, ◌==◌, Bool, false, Option, none, some, List, [], ◌∷◌, get_or,
}

-- The value of a variable of a handler: a number of its C type, the bytes of a text, or nothing that
-- was ever written.
pub data Cell : Type 0 where
  num : ℕ → Cell
  text : List ℕ → Cell
  unset : Cell

-- A text that is put together: string literals, to_string of a number, the bytes of a string.
pub data Piece : Type 0 where
  lit : String → Piece
  digits : ℕ → Piece
  raw : List ℕ → Piece

abbrev pub Text : Type 0
Text = List Piece

-- A protobuf message that is built, as the calls of its setters in their order: set_x, add_x, and
-- add_x() or mutable_x() with the calls on the message inside, or with ParsePartialFromArray of bytes.
pub data Built : Type 0 where
  end : Built
  set_field : String → Cell → Built → Built
  add_field : String → Cell → Built → Built
  add_message : String → Built → Built → Built
  add_parsed : String → List ℕ → Built → Built

-- A protobuf message that was parsed: its numbers and texts by name, and for each repeated field its
-- size and its items. An item of a repeated number or text has it under the name "". `blank` has no
-- field set, and stands for what is not there, as the default instance of protobuf does.
pub data Request : Type 0 where
  blank : Request
  request : (String → ℕ) → (String → List ℕ) → (String → ℕ) → (String → ℕ → Request) → Request

abbrev pub number_of : Request → String → ℕ
number_of blank f = 0
number_of (request n t size item) f = n f

abbrev pub text_of : Request → String → List ℕ
text_of blank f = []
text_of (request n t size item) f = t f

abbrev pub size_of : Request → String → ℕ
size_of blank f = 0
size_of (request n t size item) f = size f

abbrev pub item_of : Request → String → ℕ → Request
item_of blank f i = blank
item_of (request n t size item) f i = item f i

-- The items `i`, …, `i + n - 1` of a repeated field.
abbrev pub items_from : ℕ → ℕ → Request → String → List Request
items_from zero i r f = []
items_from (suc n) i r f = item_of r f i ∷ items_from n (i + 1) r f

abbrev pub items_of : Request → String → List Request
items_of r f = items_from (size_of r f) 0 r f

-- `set_cmd_id`, `set_pb_length(ByteSize())` and `write_msg` in front of add_response, with a message
-- of its own or with setters that are called on the request; or only set_cmd_id, which sends the
-- request back.
pub data Reply : Type 0 where
  rewritten amended : ℕ → Built → Reply
  echoed : ℕ → Reply

-- The type of a column, and the size of the variable that set_param_result is given for it.
pub data Column : Type 0 where
  tiny short long longlong string : ℕ → Column

-- The values of a row, none for NULL.
abbrev pub Row : Type 0
Row = List (Option Cell)

-- What a fetch does to the variables of the columns: NULL leaves one as it is.
abbrev pub fill : List Cell → Row → List Cell
fill [] row = []
fill (v ∷ vs) [] = v ∷ vs
fill (v ∷ vs) (none ∷ row) = v ∷ fill vs row
fill (v ∷ vs) (some w ∷ row) = w ∷ fill vs row

-- The variables in each round of a loop over the rows. `reset` is what a round does to them last.
abbrev pub rounds : (List Cell → List Cell) → List Cell → List Row → List (List Cell)
rounds reset vars [] = []
rounds reset vars (row ∷ rows) =
    let now_held = fill vars row in now_held ∷ rounds reset (reset now_held) rows

-- The variables as they are declared: numbers without a value, and arrays of bytes 0.
abbrev pub declared : List Column → List Cell
declared [] = []
declared (string n ∷ cs) = text [] ∷ declared cs
declared (tiny n ∷ cs) = unset ∷ declared cs
declared (short n ∷ cs) = unset ∷ declared cs
declared (long n ∷ cs) = unset ∷ declared cs
declared (longlong n ∷ cs) = unset ∷ declared cs

abbrev pub at : List Cell → ℕ → Cell
at vars i = get_or vars i unset

-- The setters of several fields in their order.
abbrev pub set_fields : List (String × Cell) → Built → Built
set_fields [] rest = rest
set_fields ((f, v) ∷ fields) rest = set_field f v (set_fields fields rest)

-- One message inside for each round.
abbrev pub add_each {ℓ} : {A : Type ℓ} → String → (A → Built) → List A → Built → Built
add_each f build [] rest = rest
add_each f build (v ∷ vs) rest = add_message f (build v) (add_each f build vs rest)

-- A loop that sets `update_time` behind each message inside, to the variable of column `i`.
abbrev pub add_timed : String → (List Cell → Built) → ℕ → List (List Cell) → Built → Built
add_timed f build i [] rest = rest
add_timed f build i (v ∷ vs) rest =
    add_message f (build v) (set_field "update_time" (at v i) (add_timed f build i vs rest))

abbrev pub add_cells {ℓ} : {A : Type ℓ} → String → (A → Cell) → List A → Built → Built
add_cells f value [] rest = rest
add_cells f value (v ∷ vs) rest = add_field f (value v) (add_cells f value vs rest)

-- string(table) + to_string(id % 8).
abbrev pub sharded : String → ℕ → Text
sharded table id = lit table ∷ digits (id % 8) ∷ []

-- A test on a variable, of which one without a value is told from none.
abbrev pub is_num : ℕ → Cell → Bool
is_num n (num m) = m == n
is_num n (text t) = false
is_num n unset = false

-- A field of a request as the value of a variable: a number, a byte of it, or a text.
abbrev pub field : Request → String → Cell
field r f = num (number_of r f)

abbrev pub byte_field : Request → String → Cell
byte_field r f = num (number_of r f % 2 ^ 8)

abbrev pub text_field : Request → String → Cell
text_field r f = text (text_of r f)

-- The number in a variable; one without a value stands as 0.
abbrev pub value_of : Cell → ℕ
value_of (num n) = n
value_of (text t) = 0
value_of unset = 0

-- What the handlers use of protobuf and jsoncpp: the bytes of a message that was built or that is a
-- part of a request, and the text of an array of objects.
pub record Formats : Type 0 where
  pub serialize : Built → List ℕ
  pub serialize_part : Request → List ℕ
  pub write_json : List (List (String × Cell)) → List ℕ
