-- ===== src/OpenModes/Tests.antt =====
-- fcntl.rs: the theorems on open modes at some numbers.
