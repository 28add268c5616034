-- ===== src/Device.antt =====
-- src/device.c: a renderer on the network, with the contexts (network interfaces) that it is seen on.
pub mod Hosting
pub mod Contexts
pub mod Duration
pub mod Props
pub mod Rates
pub mod Fractions
pub mod Metadata
pub mod Changes
pub mod Update
pub mod Protocols
pub mod Objects
pub mod Commands
pub mod Signals
pub mod Introspection
pub mod Inserted
pub mod Watching
pub mod Speeds
pub mod Published
pub mod Stable
pub mod Offered
pub mod Typed
pub mod Answers
pub mod Positions
pub mod Preferred
pub mod Kept
pub mod Tests
pub mod PlayerTests
pub mod ServedTests
pub mod ContextTests
