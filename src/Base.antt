-- ===== src/Base.antt =====
-- What every component stands on: the string functions of Go's standard library that the code
-- calls, signed machine integers, API errors, and calls to the outside world as a history.
pub mod Text
pub mod Int
pub mod Errors
pub mod Effect
pub mod Trace
