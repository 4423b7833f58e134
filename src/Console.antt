-- ===== src/Console.antt =====
-- eventfold-console/src: the terminal application: its state, its client of the service, its event
-- loop and its views.
pub mod App
pub mod Keys
pub mod Client
pub mod Loop
pub mod Views
pub mod Texts
pub mod Tables
pub mod Screen
pub mod Highlight
pub mod Tls
pub mod Start
pub mod Buffer
pub mod Tail
pub mod Cursors
pub mod Window
