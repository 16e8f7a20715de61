-- ===== src/Handlers/Sessions.antt =====
-- The handlers that keep the order of the automaton when the message names a type that they know.
use db_proxy_server.Prelude.{ℕ, ◌≡◌, ◌==◌, ◌||◌, ◌⊎◌, inl, inr, Bool, true, false, some, arith}
use db_proxy_server.Handlers.Program.{Request, Formats, done, number_of, item_of}
use db_proxy_server.Handlers.Discipline.{start}
use db_proxy_server.Handlers.Check.{Check}
use db_proxy_server.Handlers.Sound.{AtEnd, Disposed}
use db_proxy_server.Handlers.ServerUpdates.{set_del_recent_chat}
use db_proxy_server.Handlers.MessageUpdates.{
  set_online_msg_data, set_recall_msg_data, set_receipt_status,
}
use db_proxy_server.Handlers.MessageQueries.{get_offline_msg, get_history_msg, get_latest_msg_id}

-- SESSION_TYPE_SINGLE, SESSION_TYPE_MULTICHAT or SESSION_TYPE_ORGGROUP.
abbrev pub is_session : ℕ → Bool
is_session n = (n == 1) || (n == 2) || (n == 3)

pub is_session-cases : (n : ℕ) → is_session n ≡ true → (n ≡ 1) ⊎ (n ≡ 2) ⊎ (n ≡ 3)
is_session-cases n h = ground arith

-- OPT_DEL_RECENT_CONTACT or OPT_DEL_RECENT_CONTACT_GROUP.
abbrev pub is_recent : ℕ → Bool
is_recent n = (n == 3) || (n == 5)

is_recent-cases : (n : ℕ) → is_recent n ≡ true → (n ≡ 3) ⊎ (n ≡ 5)
is_recent-cases n h = ground arith

-- The search takes it where a test on the type comes out the other way.
differ : true ≡ false → ⊥
differ e = cc

pub set_del_recent_chat-Check :
    (msg_data : Request)
    → is_recent (number_of msg_data "opt_type") ≡ true
    → Check Disposed (set_del_recent_chat (some msg_data) done) start
unfolding set_del_recent_chat
set_del_recent_chat-Check msg_data h = elim (is_recent-cases (number_of msg_data "opt_type") h) [
  | inl e ↦ rw e search (differ) depth 40
  | inr e ↦ rw e search (differ) depth 40
]

pub set_online_msg_data-Check :
    (formats : Formats) (msg_data : Request)
    → is_session (number_of (item_of msg_data "msg_data" 0) "session_type") ≡ true
    → Check Disposed (set_online_msg_data formats (some msg_data) done) start
unfolding set_online_msg_data
set_online_msg_data-Check formats msg_data h =
    elim (is_session-cases (number_of (item_of msg_data "msg_data" 0) "session_type") h) [
      | inl e ↦ rw e search depth 40
      | inr (inl e) ↦ rw e search depth 40
      | inr (inr e) ↦ rw e search depth 40
    ]

pub set_recall_msg_data-Check :
    (formats : Formats) (msg_data : Request)
    → is_session (number_of (item_of msg_data "msg_data" 0) "session_type") ≡ true
    → Check Disposed (set_recall_msg_data formats (some msg_data) done) start
unfolding set_recall_msg_data
set_recall_msg_data-Check formats msg_data h =
    elim (is_session-cases (number_of (item_of msg_data "msg_data" 0) "session_type") h) [
      | inl e ↦ rw e search (differ) depth 40
      | inr (inl e) ↦ rw e search (differ) depth 40
      | inr (inr e) ↦ rw e search (differ) depth 40
    ]

pub set_receipt_status-Check :
    (msg_data : Request)
    → is_session (number_of msg_data "session_type") ≡ true
    → Check Disposed (set_receipt_status (some msg_data) done) start
unfolding set_receipt_status
set_receipt_status-Check msg_data h =
    elim (is_session-cases (number_of msg_data "session_type") h) [
      | inl e ↦ rw e search (differ) depth 40
      | inr (inl e) ↦ rw e search (differ) depth 40
      | inr (inr e) ↦ rw e search (differ) depth 40
    ]

pub get_offline_msg-Check :
    (msg_data : Request)
    → is_session (number_of msg_data "session_type") ≡ true
    → Check AtEnd (get_offline_msg (some msg_data) done) start
unfolding get_offline_msg
get_offline_msg-Check msg_data h = elim (is_session-cases (number_of msg_data "session_type") h) [
  | inl e ↦ rw e search (differ) depth 40
  | inr (inl e) ↦ rw e search (differ) depth 40
  | inr (inr e) ↦ rw e search (differ) depth 40
]

pub get_history_msg-Check :
    (msg_data : Request)
    → is_session (number_of msg_data "session_type") ≡ true
    → Check AtEnd (get_history_msg (some msg_data) done) start
unfolding get_history_msg
get_history_msg-Check msg_data h = elim (is_session-cases (number_of msg_data "session_type") h) [
  | inl e ↦ rw e search (differ) depth 40
  | inr (inl e) ↦ rw e search (differ) depth 40
  | inr (inr e) ↦ rw e search (differ) depth 40
]

pub get_latest_msg_id-Check :
    (msg_data : Request)
    → is_session (number_of msg_data "session_type") ≡ true
    → Check AtEnd (get_latest_msg_id (some msg_data) done) start
unfolding get_latest_msg_id
get_latest_msg_id-Check msg_data h = elim (is_session-cases (number_of msg_data "session_type") h) [
  | inl e ↦ rw e search depth 40
  | inr (inl e) ↦ rw e search depth 40
  | inr (inr e) ↦ rw e search depth 40
]
