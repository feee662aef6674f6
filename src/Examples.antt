-- ===== src/Examples.antt =====
-- examples/server/server.go and examples/logger/logger.go: a server that a client connects to, and
-- the client. A connection's input is the bytes that arrive before it ends, as for `Sv2Conn`.
pub mod Server
pub mod Logger
pub mod Written
pub mod Streams
pub mod Meeting
pub mod Closing
pub mod Trust
pub mod Taken
pub mod Endings
use stratumv.Prelude.{Bool, true, false}
use stratumv.Binary.Failure.{Failure, end_of_file}

-- How a routine ends: it returns, or `loog.Fatal` ends the program.
pub data Exit : Type 0 where
  quits : Exit
  fatal : Failure → Exit

-- What the reading loops make of an error: `err == io.EOF`.
abbrev pub after_error : Failure → Exit
after_error end_of_file = quits
after_error e = fatal e
