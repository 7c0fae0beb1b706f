-- ===== src/Adapter.antt =====
-- internal/adapter: what the adapters of the two platforms share.
pub mod Typing
pub mod Send
pub mod Events
pub mod Discord
pub mod Wechat
mod Examples
