-- ===== src/Provider/Macos.antt =====
-- provider/cocoon/macos.go: macOS guests, which qemu runs outside cocoon's own store.
pub mod Vnc
pub mod Unique
pub mod Launch
pub mod Create
pub mod Repair
pub mod Careful
pub mod Quiet
