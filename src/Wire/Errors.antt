-- ===== src/Wire/Errors.antt =====
-- What the writers and the parsers of the Arq 7 binary format raise.

-- `struct.error` of a value out of range; `UnicodeEncodeError`.
pub data WriteError : Type 0 where
  int_range bad_text : WriteError

-- The two `ValueError`s of arq_reader/parse.py.
pub data ParseError : Type 0 where
  unexpected_eof bad_string_flag : ParseError
