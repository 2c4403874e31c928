-- ===== src/Examples.antt =====
-- Concrete machines, engines and configurations, and the theorems at them. The children's names say
-- which part of the program they are about.
pub mod Samples
pub mod Machine
pub mod Flapping
pub mod Engine
pub mod Commands
pub mod Probing
pub mod Pages
pub mod Serving
pub mod Texts
pub mod Paging
pub mod Storing
pub mod Requests
pub mod Answers
pub mod Starting
pub mod Running
