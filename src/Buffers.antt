-- ===== src/Buffers.antt =====
-- IPC::BufferManager and IPC::Buffer: include/cppgenerics/IPC_Buffer.h, src/IPC_BufferManager.cpp.
pub mod Tests
pub mod Descriptors
pub mod Chain
pub mod Linked
pub mod Lost
pub mod Take
pub mod Release
pub mod Init
pub mod Walk
pub mod HeadRelease
pub mod Manager
pub mod Registry
pub mod Sharing
