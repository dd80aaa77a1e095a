-- ===== src/Api.antt =====
-- The interface of the library to its users, bridge/sw/lib/evcoap/src/evcoap.c. Objects that the user
-- passes exist; a NULL that the code tests for further inside is an `Option`.
pub mod Blocks
pub mod Request
pub mod Response
pub mod Registry
