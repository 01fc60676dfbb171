-- ===== src/Tools.antt =====
-- internal/tools: what the handlers share. A handler is written in continuation style: a guard of the
-- source (`if err := ...; err != nil { return ... }`) is a step that may drop the rest.
pub mod Handler
pub mod Util
pub mod Listing
pub mod Discovery
pub mod Toolkit
