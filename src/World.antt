-- ===== src/World.antt =====
-- The state that the server's handlers share: the tables of db/schema.sql, the scheduler's fields,
-- the registry of connections, what has been sent, and what has been started with `go`.
mod Tables
mod Rows
mod State
pub mod Exec
pub mod Keeps
pub mod Gives
pub mod Listed
pub use Tables.*
unfoldable pub use Tables.{
  find, insert, modify, count_where, find_where, first_below, select_where, select_below,
}
pub use Rows.*
pub use State.*
