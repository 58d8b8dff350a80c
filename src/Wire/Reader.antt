-- ===== src/Wire/Reader.antt =====
-- `BinaryReader` of arq_reader/parse.py. The reader's state is what it has not read, `data[pos:]`;
-- `pos` itself shows only in the texts of errors.
use arq_backup_tui.Common.{
  ℕ, zero, suc, ◌^◌, Bool, not, Option, none, some, List, [], ◌∷◌, length, take, drop, leb, ◌==◌,
  if◌then◌else◌,
}
use arq_backup_tui.Common.Int.{ℤ}
use arq_backup_tui.Common.Result
use arq_backup_tui.Common.Result.{Result, ok, err}
use arq_backup_tui.Wire.Errors.{ParseError, unexpected_eof, bad_string_flag}
use arq_backup_tui.Wire.Bytes.{from_big_endian, from_word}
use arq_backup_tui.Wire.Utf8.{decode_replace}
use arq_backup_tui.Wire.Types.{Text}

abbrev pub Parser : Type 0 → Type 0
Parser A = List ℕ → Result ParseError (A × List ℕ)

infixl 5 ◌>>=◌
unfoldable pub ◌>>=◌ : {A B : Type 0} → Parser A → (A → Parser B) → Parser B
◌>>=◌ p f bytes = Result.◌>>=◌ (p bytes) (λ r. f r.0 r.1)

unfoldable pub pure : {A : Type 0} → A → Parser A
pure a bytes = ok (a, bytes)

unfoldable pub fail : {A : Type 0} → ParseError → Parser A
fail e bytes = err e

-- `_need(n)`, the slice `data[pos:pos + n]`, and `pos += n`.
unfoldable pub read_raw : ℕ → Parser (List ℕ)
read_raw n bytes =
    if leb n (length bytes) then ok (take n bytes, drop n bytes) else err unexpected_eof

unfoldable pub read_byte : Parser ℕ
read_byte [] = err unexpected_eof
read_byte (b ∷ bytes) = ok (b, bytes)

unfoldable pub read_bool : Parser Bool
read_bool = do v ← read_byte; pure (not (v == 0))

unfoldable pub read_uint32 : Parser ℕ
read_uint32 = do bs ← read_raw 4; pure (from_big_endian 0 bs)

unfoldable pub read_uint64 : Parser ℕ
read_uint64 = do bs ← read_raw 8; pure (from_big_endian 0 bs)

unfoldable pub read_int32 : Parser ℤ
read_int32 = do bs ← read_raw 4; pure (from_word (2 ^ 32) (from_big_endian 0 bs))

unfoldable pub read_int64 : Parser ℤ
read_int64 = do bs ← read_raw 8; pure (from_word (2 ^ 64) (from_big_endian 0 bs))

unfoldable pub read_text : Parser (Option Text)
read_text = do size ← read_uint64; s ← read_raw size; pure (some (decode_replace s))

unfoldable pub read_string_after : ℕ → Parser (Option Text)
read_string_after zero = pure none
read_string_after (suc zero) = read_text
read_string_after _ = fail bad_string_flag

unfoldable pub read_string : Parser (Option Text)
unfolding read_string_after read_text fail
read_string = do is_not_null ← read_byte; read_string_after is_not_null
