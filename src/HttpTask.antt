-- ===== src/HttpTask.antt =====
-- src/http_task.cpp: which handler the JSON text of an HTTP request is given to. jsoncpp is an
-- interface, and the handlers of src/handler_http.cpp stand by their names.
pub mod Dispatch
use Prim.Native.String.{String, compare}
use Prim.Native.Nat.{Ordering}
use db_proxy_server.Prelude.{ℕ, Bool, true, false, Option, none, some, List, [], ◌∷◌, ◌||◌}

pub data HttpHandler : Type 0 where
  http_login http_get_company_list http_get_company_user_list : HttpHandler
  http_get_company_organization http_get_organization http_get_all_node_member : HttpHandler
  http_get_all_member http_get_node_member http_get_user_info http_add_company : HttpHandler
  http_modify_company_info http_add_department http_modify_department_info : HttpHandler
  http_del_department http_add_user http_modify_user_info http_add_user_title : HttpHandler
  http_modify_user_title http_del_user_title http_del_user http_mov_node : HttpHandler
  http_msg_statistics_rsp http_login_statistics_rsp http_add_role : HttpHandler
  http_modify_role_attribute http_query_role_list http_query_role_authority : HttpHandler
  http_add_role_authority http_modify_role_authority http_del_role_authority : HttpHandler
  http_del_role http_query_role_user_list http_add_user_role http_query_user_role : HttpHandler
  http_del_user_role : HttpHandler

-- What the source uses of jsoncpp. `none` stands for a text that does not parse, and for the
-- exception that `[ ]` throws on a value that is no object and asString on one it cannot convert.
pub record Json : Type 1 where
  pub Value : Type 0
  pub parse : List ℕ → Option Value
  pub member : Value → String → Option Value
  pub is_null : Value → Bool
  pub as_string : Value → Option String

-- How http_task::run ends: with the call of a handler on the texts of `msgid` and the value of
-- `body`, with the answer "fail", without either, or with an exception.
pub data Outcome {ℓ} (Value : Type ℓ) : Type ℓ where
  called : HttpHandler → String → Value → Outcome Value
  answered_fail skipped thrown : Outcome Value

-- `string(s) == t`.
abbrev pub text_eq : String → String → Bool
text_eq s t = elim (compare s t) [ Ordering.eq ↦ true | _ ↦ false ]

-- The tests of the chain of `if` and `else if`, in its order.
abbrev pub protocols : List (String × HttpHandler)
protocols =
    ("admin_login_req", http_login)
    ∷ ("query_company_list_req", http_get_company_list)
    ∷ ("query_company_user_list_req", http_get_company_user_list)
    ∷ ("get_company_organization_req", http_get_company_organization)
    ∷ ("get_organization_req", http_get_organization)
    ∷ ("get_all_node_member_req", http_get_all_node_member)
    ∷ ("get_all_member_req", http_get_all_member)
    ∷ ("get_node_member_req", http_get_node_member)
    ∷ ("get_user_info_req", http_get_user_info)
    ∷ ("add_company_req", http_add_company)
    ∷ ("modify_company_info_req", http_modify_company_info)
    ∷ ("add_department_req", http_add_department)
    ∷ ("modify_department_info_req", http_modify_department_info)
    ∷ ("del_department_req", http_del_department)
    ∷ ("add_user_req", http_add_user)
    ∷ ("modify_user_info_req", http_modify_user_info)
    ∷ ("user_title_add_req", http_add_user_title)
    ∷ ("user_title_modify_req", http_modify_user_title)
    ∷ ("user_title_del_req", http_del_user_title)
    ∷ ("del_user_req", http_del_user)
    ∷ ("mov_node_req", http_mov_node)
    ∷ ("get_msg_statistics_req", http_msg_statistics_rsp)
    ∷ ("get_login_statistics_req", http_login_statistics_rsp)
    ∷ ("add_role_req", http_add_role)
    ∷ ("modify_role_attribute_req", http_modify_role_attribute)
    ∷ ("query_role_list_req", http_query_role_list)
    ∷ ("query_role_authority_req", http_query_role_authority)
    ∷ ("add_role_authority_req", http_add_role_authority)
    ∷ ("modify_role_authority_req", http_modify_role_authority)
    ∷ ("del_role_authority_req", http_del_role_authority)
    ∷ ("del_role_req", http_del_role)
    ∷ ("query_role_user_list_req", http_query_role_user_list)
    ∷ ("add_user_role_req", http_add_user_role)
    ∷ ("http_query_user_role", http_query_user_role)
    ∷ ("http_del_user_role", http_del_user_role)
    ∷ []

unfoldable pub find_protocol : String → List (String × HttpHandler) → Option HttpHandler
find_protocol s [] = none
find_protocol s ((t, h) ∷ rest) = elim (text_eq t s) [
  | true ↦ some h
  | false ↦ find_protocol s rest
]

unfoldable pub handler_of : String → Option HttpHandler
unfolding find_protocol
handler_of s = find_protocol s protocols

module _ (json : Json) where
  open json use {Value, parse, member, is_null, as_string}

  -- The call of a handler: both arguments are computed first.
  unfoldable pub call_handler : HttpHandler → Option String → Option Value → Outcome Value
  call_handler h (some msgid) (some body) = called h msgid body
  call_handler h none body = thrown
  call_handler h (some msgid) none = thrown

  -- The chain, on the text of `protocol_type`.
  unfoldable pub choose : Option HttpHandler → Value → Value → Outcome Value
  unfolding call_handler
  choose none msgid value = answered_fail
  choose (some h) msgid value = call_handler h (as_string msgid) (member value "body")

  unfoldable pub on_protocol : Option String → Value → Value → Outcome Value
  unfolding choose handler_of
  on_protocol none msgid value = thrown
  on_protocol (some s) msgid value = choose (handler_of s) msgid value

  -- Behind a successful parse, with the members `protocol_type` and `msgid`.
  unfoldable pub on_head : Option Value → Option Value → Value → Outcome Value
  unfolding on_protocol
  on_head none msgid value = thrown
  on_head (some protocol) none value = elim (is_null protocol) [
    | true ↦ answered_fail
    | false ↦ thrown
  ]
  on_head (some protocol) (some msgid) value = elim (is_null protocol || is_null msgid) [
    | true ↦ answered_fail
    | false ↦ on_protocol (as_string protocol) msgid value
  ]

  unfoldable pub on_value : Option Value → Outcome Value
  unfolding on_head
  on_value none = answered_fail
  on_value (some value) = on_head (member value "protocol_type") (member value "msgid") value

  -- http_task::run. `m_flag` is true for a request and false for a response.
  unfoldable pub run : Bool → List ℕ → Outcome Value
  unfolding on_value
  run false m_msg = skipped
  run true m_msg = on_value (parse m_msg)
