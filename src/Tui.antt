-- ===== src/Tui.antt =====
-- internal/tui: the dashboard that runs in the gateway's process, its screen, and its drills; and
-- the stand-alone dashboard of cmd/tui/main.go, what it asks of a gateway, reads and shows. The selector
-- U+FE0F after an emoji of a text is left out.
pub mod Modal
pub mod Model
pub mod Update
pub mod TwoStep
pub mod Remote
pub mod Render
pub mod Page
pub mod Polls
pub mod Look
pub mod View
pub mod Screens
pub mod Shown
pub mod RemoteView
pub mod Sparring
pub mod Headless
