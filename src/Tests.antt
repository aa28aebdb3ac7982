-- ===== src/Tests.antt =====
-- The theorems at concrete inputs.
mod Sessions
mod Text
mod Transport
mod Wire
mod Connector
mod MsgArg
mod Config
mod Joins
mod Replies
mod Objects
mod NewAttachment
