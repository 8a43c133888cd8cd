-- ===== src/App.antt =====
-- app/src: what the graphical and the terminal client share.
pub mod DeviceService
pub mod HotplugService
pub mod DeviceList
pub mod DisabledOverlay
pub mod BackendStatus
pub mod StatusLine
