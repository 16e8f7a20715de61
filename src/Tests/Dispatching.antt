-- ===== src/Tests/Dispatching.antt =====
-- The two tables of handlers.
use Prim.Native.String.{String}
use db_proxy_server.HandlerMap.{set_online_msg_data, get_handler, registrations}
use db_proxy_server.HandlerMap.Lookup.{Registers, get_handler-Registers}
use db_proxy_server.HttpTask.{
  HttpHandler, http_add_user, Json, called, answered_fail, protocols, text_eq, run,
}
use db_proxy_server.HttpTask.Dispatch.{Serves, run_dispatch}
use db_proxy_server.Prelude.{◌≡◌, refl, ◌↔◌, true, false, Option, none, some, [], if◌then◌else◌}

get_handler-Registers_example :
    (get_handler 0x0317 ≡ some set_online_msg_data)
    ↔ Registers 0x0317 set_online_msg_data registrations
get_handler-Registers_example = get_handler-Registers 0x0317 set_online_msg_data

-- Every text parses to one value, whose members are texts: the first is `add_user_req`.
abbrev member_of : Option String → String → Option (Option String)
member_of none k =
    if text_eq k "protocol_type" then some (some "add_user_req") else some (some "12")
member_of (some t) k = none

abbrev one_request : Json
one_request = record {
  Value = Option String;
  parse = λ l. some none;
  member = member_of;
  is_null = λ v. false;
  as_string = λ v. v;
}

run_dispatch_example :
    ((run one_request true [] ≡ called http_add_user "12" (some "12"))
      ↔ Serves "add_user_req" http_add_user protocols)
    × ((run one_request true [] ≡ answered_fail)
        ↔ ¬ ((g : HttpHandler) × Serves "add_user_req" g protocols))
run_dispatch_example =
    run_dispatch one_request [] none (some "add_user_req") (some "12") (some "12") "add_user_req"
      "12" refl refl refl refl refl refl refl http_add_user
