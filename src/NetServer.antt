-- ===== src/NetServer.antt =====
-- src/net_server.cpp: what the server does with the bytes that arrive and with the answers.
pub mod HandleData
pub mod AccountData
pub mod Responses
pub mod Logins
