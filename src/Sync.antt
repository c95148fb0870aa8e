-- ===== src/Sync.antt =====
-- src/sync: the objects that threads wait on, addressed by pointers. The objects of each kind are a
-- function of the address; the address 0 is NULL, and two names of one object are one address.
pub mod Objects
pub mod Mutex
pub mod Cond
pub mod Sem
pub mod System
