-- ===== src/Mt5api/Terminal.antt =====
-- mt5api/terminal.py: how a worker starts, binds and loses its terminal.
pub mod Start
pub mod Connect
pub mod Task
pub mod Binding
pub mod Served
pub mod Tests
