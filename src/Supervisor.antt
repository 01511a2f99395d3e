-- ===== src/Supervisor.antt =====
-- The supervisor of the HMI backend: hmi/backend/services/supervisor_*.py. A method is an action
-- that may raise; records are written through their key in `_commands`, which stands for the
-- shared `CommandRecord` object. Trace lines, chat messages and stored audit rows other than the
-- transitions are not modelled: no method reads them back.
pub mod Records
pub mod Store
pub mod Gate
pub mod Execution
pub mod Control
pub mod Sequences
pub mod Keeping
pub mod Requests
pub mod Trail
pub mod Effects
pub mod Settled
pub mod Dispatches
pub mod Sending
pub mod Confirming
pub mod Guard
mod Tests
