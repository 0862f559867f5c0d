-- ===== src/Tests.antt =====
-- The theorems at concrete inputs.
pub mod Bitmaps
pub mod Lists
pub mod Heap
pub mod Devices
pub mod Output
pub mod Pages
pub mod Boot
