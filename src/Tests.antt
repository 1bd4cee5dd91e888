-- ===== src/Tests.antt =====
-- The theorems at concrete inputs.
mod Kernel
mod Permissions
mod Mediation
mod Members
mod Staging
mod Mounting
mod Servers
mod Relations
mod Echo
mod CustomValues
