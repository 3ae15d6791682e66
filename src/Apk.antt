-- ===== src/Apk.antt =====
-- The checks of a built APK in ci/collect_android.py.
pub mod Absent
pub mod Flags
pub mod Values
pub mod Sole
