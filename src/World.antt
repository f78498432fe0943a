-- ===== src/World.antt =====
-- What the agent's code reads and changes outside itself, and the actions that do so.
-- Every call that leaves the process is one tick. What comes back (an answer of a node, of Redis,
-- of the clock, an error) is a function of the tick, a parameter of the code; so are the choices
-- of the Go runtime. What the agent writes is the database and the log of its writes.
pub mod Actions
pub mod Schema
pub use Schema.{ProviderRow, ContractRow, Database}
unfoldable pub use Actions.*
