-- ===== src/Storage.antt =====
-- Files and blobs: src/fileloader.h and src/fileloader.cpp.
pub mod PropStream
pub mod Otb
