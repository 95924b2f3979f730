-- ===== src/Display.antt =====
-- The display: the task that decides what it shows, the layout of its texts, its screens and its driver.
pub mod Controller
pub mod Layout
pub mod Screens
pub mod Driver
