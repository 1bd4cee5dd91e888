-- ===== src/Mounting/Routes/Checks.antt =====
-- core/src/kernel/mount.ts, checkCubes: what holds of the cubes of a server that starts.
