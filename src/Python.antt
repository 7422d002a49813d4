-- ===== src/Python.antt =====
-- What the library uses of Python itself: the values that a message carries, the exceptions that
-- are raised and caught, and the result of a call that may raise.
pub mod Int
pub mod Value
pub mod Exc
pub mod Text
