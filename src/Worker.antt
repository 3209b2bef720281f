-- ===== src/Worker.antt =====
-- The worker service (worker/): the deployment state machine, the queue client, message handling
-- and the monitoring of build jobs.
pub mod World
pub mod StateMachine
pub mod Queue
pub mod Builder
pub mod Process
pub mod Monitor
pub mod Loop
mod Tests
