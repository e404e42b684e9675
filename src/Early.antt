-- ===== src/Early.antt =====
-- The earlier versions of the programs, which the Makefile does not build: odr.c and client.c.
pub mod Odr
pub mod Client
pub mod Broadcasts
pub mod Accepts
