-- ===== src/Simulation.antt =====
-- simulation/: a mesh of nodes in the cells of a building. Random numbers are arguments, float64 is the
-- parameter `float`, SHA-256 the parameter `hash`.
pub mod Radio
pub mod Schedule
pub mod Config
pub mod Signal
pub mod Node
pub mod World
pub mod Path
pub mod Flight
pub mod Collision
pub mod Sending
pub mod Dispatch
pub mod Steps
pub mod Scenario
pub mod Figures
mod Runs
