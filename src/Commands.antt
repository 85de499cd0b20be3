-- ===== src/Commands.antt =====
-- Commands: the parser of their arguments, the options of SET, and the commands themselves.
pub mod ArgParser
pub mod SetParams
pub mod Strings
pub mod Generic
pub mod Keys
pub mod Values
pub mod Handlers
pub mod Registry
