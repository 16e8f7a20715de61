-- ===== src/Handlers/Passwords.antt =====
-- The passwords in get_login_result and set_modify_pwd of src/handler_server.cpp.
use db_proxy_server.Prelude.{ℕ, ◌≡◌, ◌≢◌, Option, none, some, List, [], ◌∷◌, ◌++◌, get_or}
use db_proxy_server.Handlers.Program.{
  Cell, num, text, Row, Built, set_fields, Request, text_of, text_field, field, rewritten, Formats,
  Program, done, call, free, respond, fill, at,
}
use db_proxy_server.Handlers.ServerQueries.{c_bytes, bytes_of}
use db_proxy_server.Handlers.Fields.{or_empty}

-- The text in the first column of a row, empty for NULL.
abbrev pub first_text : Row → List ℕ
first_text row = bytes_of (or_empty (get_or row 0 none))

-- The variable of the password behind the fetch.
abbrev pwd_read : Row → List ℕ
pwd_read row = bytes_of (at (fill (text [] ∷ []) row) 0)

-- What a login with a password answers, by the rows that its first statement read: nothing; no success
-- behind the count alone; and behind the stored password success if it is the same text in front of the
-- first byte 0, and RESULT_LOGIN_USER_OR_PWS_ERROR else.
pub data IsChecked (password : List ℕ) : List (Option Cell) → List Row → Type 0 where
  silent : {rows : List Row} → IsChecked password [] rows
  unread :
      {code : Option Cell} {count : Row}
      → code ≢ some (num 1)
      → IsChecked password (code ∷ []) (count ∷ [])
  right :
      {count stored : Row}
      → c_bytes (first_text stored) ≡ c_bytes password
      → IsChecked password (some (num 1) ∷ []) (count ∷ stored ∷ [])
  wrong :
      {count stored : Row}
      → c_bytes (first_text stored) ≢ c_bytes password
      → IsChecked password (some (num 2) ∷ []) (count ∷ stored ∷ [])

module _ (formats : Formats) (msg_data : Request) where
  abbrev password : List ℕ
  password = text_of msg_data "password"

  -- What get_login_result does with the rest of its answer.
  abbrev answer_login : Built → Program (Unit {0})
  answer_login rest =
      call
        (respond (
          rewritten 0x071c (
            set_fields
              (("company_id", field msg_data "company_id")
                ∷ ("user_name", text_field msg_data "user_name")
                ∷ ("password", text_field msg_data "password")
                ∷ ("client_type", field msg_data "client_type")
                ∷ ("online_status", field msg_data "online_status")
                ∷ [])
              rest)))
        (λ a. call (free 0) (λ x. done a))

-- A beginning of a text.
abbrev pub IsBeginning : List ℕ → List ℕ → Type 0
IsBeginning stored b = (rest : List ℕ) × (b ≡ stored ++ rest)

-- What a change of the password answers, by the stored password: nothing, success if the old password
-- that was sent begins with it, and a failure else.
pub data IsChanged (old stored : List ℕ) : List (Option Cell) → Type 0 where
  unanswered : IsChanged old stored []
  accepted : IsBeginning stored (c_bytes old) → IsChanged old stored (some (num 1) ∷ [])
  refused : ¬ (IsBeginning stored (c_bytes old)) → IsChanged old stored (some (num 2) ∷ [])

module _ (msg_data : Request) where
  abbrev old_pswd : List ℕ
  old_pswd = text_of msg_data "old_pswd"
