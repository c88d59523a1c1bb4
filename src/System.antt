-- ===== src/System.antt =====
-- The machine around the cores: the devices, the dispatch of addresses and the monitor of the cores.
pub mod Uart
pub mod Monitor
pub mod Dispatch
pub mod Direct
pub mod Loader
mod Tests
