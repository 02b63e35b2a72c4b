-- ===== src/Python.antt =====
-- What the program uses of Python's standard library, on which its decisions rest.
pub mod Dict
pub mod Text
pub mod Shlex
pub mod Fnmatch
pub mod FilePath
pub mod Regex
