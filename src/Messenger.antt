-- ===== src/Messenger.antt =====
-- toxcore/Messenger.c: the parts of the messenger that are modelled.
pub mod Files
mod Tests
