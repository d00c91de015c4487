-- ===== src/Store.antt =====
-- pim/store: the calendars, task lists and address books that alborz keeps itself.
pub mod Types
pub mod Keys
pub mod Stored
pub mod Rows
pub mod Env
pub mod Tx
pub mod Names
pub mod Access
pub mod Collections
pub mod Removal
pub mod Objects
pub mod Shares
pub mod Ctags
pub mod Feeds
pub mod Seen
pub mod Sample
pub mod Tests
