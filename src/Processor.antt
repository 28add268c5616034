-- ===== src/Processor.antt =====
-- src/task-processor.c with src/task-atom.h, and the callbacks of its two kinds of queues: those of
-- src/renderer-service-upnp.c for the tasks of clients, those of src/service-task.c for the tasks
-- that build a device.
pub mod State
pub mod Callbacks
pub mod Cancel
pub mod Queues
pub mod Run
pub mod Invariant
pub mod Sound
pub mod Frame
pub mod Walks
pub mod Steps
pub mod Reach
pub mod Kept
pub mod Conserved
pub mod Answers
pub mod Balance
pub mod Running
pub mod OneAnswer
pub mod Busy
pub mod Counted
pub mod Quitting
pub mod Lively
pub mod Ends
pub mod WhenQuitting
pub mod Quits
pub mod Stall
pub mod Finally
pub mod Tests
