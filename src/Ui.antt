-- ===== src/Ui.antt =====
-- appytizer-ui/main.cpp: the tray application.
pub mod Images
pub mod Widgets
pub mod Actions
pub mod Values
pub mod Rows
pub mod SiteRows
pub mod App
pub mod Views
pub mod Settings
pub mod Program
pub mod Triples
pub mod Invariant
pub mod Layout
pub mod Served
pub mod Saved
pub mod Shown
pub mod Displayed
