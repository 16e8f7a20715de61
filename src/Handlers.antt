-- ===== src/Handlers.antt =====
-- src/handler_*.cpp: what the handlers do with MySQL, redis, the clock and their task.
pub mod Program
pub mod CacheTables
pub mod Cache
pub mod ServerQueries
pub mod ServerUpdates
pub mod Buddy
pub mod BuddyRequests
pub mod GroupQueries
pub mod GroupUpdates
pub mod GroupMembers
pub mod MessageUpdates
pub mod MessageQueries
pub mod MessageCounts
pub mod Discipline
pub mod Check
pub mod Run
pub mod Sound
pub mod Parts
pub mod Ordered
pub mod Sessions
pub mod Loops
pub mod Friends
pub mod Members
pub mod Users
pub mod Dispatch
pub mod Results
pub mod Cached
pub mod Fields
pub mod Remarks
pub mod Counts
pub mod Pages
pub mod Passwords
pub mod Kinds
pub mod Keeps
