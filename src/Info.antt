-- ===== src/Info.antt =====
-- Device information: firmware/components/ota_link/src/device_info.c.
-- `Names` has the texts, `Version` the parser of the firmware version, `Boot` the boot counter,
-- `Build` the GET_INFO payload,
-- and `Reference` the bytes that it is.
pub mod Names
pub mod Version
pub mod Boot
pub mod Build
pub mod Bounds
pub mod Layout
pub mod Reference
pub mod Contents
pub mod Fits
pub mod Examples
