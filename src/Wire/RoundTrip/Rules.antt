-- ===== src/Wire/RoundTrip/Rules.antt =====
-- The relation between a parser, a writer and the value that comes back, with a rule for each way to
-- build a writer and for each primitive.
use native.Mathlib.Nat.{mod-eq_of_lt}
use arq_backup_tui.Common.{
  ℕ, ◌^◌, ◌<◌, ◌≡◌, refl, sym, ◌∙◌, Bool, true, false, Option, none, some, List, ◌∷◌, ◌++◌,
  append_assoc, arith, length, length-append, ltb, ltb→lt, le→leb, Bool-cases, inl, inr,
}
use arq_backup_tui.Common.Slices.{take-append_length, drop-append_length}
use arq_backup_tui.Common.Int.{ℤ, pos, negsuc}
use arq_backup_tui.Common.Result.{Result, ok, err}
use arq_backup_tui.Wire.Bytes.{
  big_endian, from_big_endian, from_big_endian-big_endian, length-big_endian, to_word, from_word,
  from_word-to_word, to_word-lt, InSigned,
}
use arq_backup_tui.Wire.Utf8.{encode, decode-encode}
use arq_backup_tui.Wire.Types.{Text}
use arq_backup_tui.Wire.Errors.{WriteError}
use arq_backup_tui.Wire.Serialize.{
  Written, ◌+=◌, write_nothing, write_bool, write_uint32, write_uint64, write_int32, write_int64,
  write_string, fits_signed,
}
use arq_backup_tui.Wire.Reader.{
  Parser, ◌>>=◌, pure, read_raw, read_byte, read_bool, read_uint32, read_uint64, read_int32,
  read_int64, read_string,
}

-- Whatever follows the bytes that `w` wrote, `p` reads `a` and leaves what follows.
pub record Roundtrips {A : Type 0} (p : Parser A) (w : Written) (a : A) : Type 0 where
  pub at : (bs : List ℕ) → w ≡ ok bs → (rest : List ℕ) → p (bs ++ rest) ≡ ok (a, rest)

pub ok_injective : {A : Type 0} {a b : A} → ◌≡◌ {A = Result WriteError A} (ok a) (ok b) → a ≡ b
ok_injective e = cc

pub Roundtrips-pure : {A : Type 0} (a : A) → Roundtrips (pure a) write_nothing a
unfolding pure write_nothing
Roundtrips-pure a = record { at = λ bs e rest. ground arith }

pub append_inv :
    (w w' : Written) (bs : List ℕ)
    → (w += w') ≡ ok bs
    → (xs : List ℕ) × (ys : List ℕ) × (w ≡ ok xs) × (w' ≡ ok ys) × (xs ++ ys ≡ bs)
unfolding ◌+=◌
append_inv (ok xs) (ok ys) bs h = (xs, ys, refl, refl, ground arith)
append_inv (ok xs) (err e) bs h = cc
append_inv (err e) w' bs h = cc

bind_step :
    {A B : Type 0} (p : Parser A) (f : A → Parser B) (a : A) (bytes rest : List ℕ)
    → p bytes ≡ ok (a, rest)
    → (p >>= f) bytes ≡ f a rest
unfolding ◌>>=◌
bind_step p f a bytes rest h = rw h

pub Roundtrips-bind :
    {A B : Type 0} {p : Parser A} {w w' : Written} {a : A} {b : B} (f : A → Parser B)
    → Roundtrips p w a
    → Roundtrips (f a) w' b
    → Roundtrips (p >>= f) (w += w') b
Roundtrips-bind {p} {w} {w'} {a} f r s = record {
  at = λ bs e rest.
      let (xs, ys, ex, ey, j) = append_inv w w' bs e in
      rw (← j, append_assoc)
        (bind_step p f a (xs ++ (ys ++ rest)) (ys ++ rest) (r.at xs ex (ys ++ rest))
          ∙ s.at ys ey rest);
}

-- A parser that only changes what it read.
pub Roundtrips-map :
    {A B : Type 0} {p : Parser A} {w : Written} {a : A} (g : A → B)
    → Roundtrips p w a
    → Roundtrips (p >>= λ x. pure (g x)) w (g a)
unfolding ◌>>=◌ pure
Roundtrips-map g r = record { at = λ bs e rest. rw (r.at bs e rest) }

pub Roundtrips-raw : (n : ℕ) (bs : List ℕ) → n ≡ length bs → Roundtrips (read_raw n) (ok bs) bs
unfolding read_raw
Roundtrips-raw n bs h = record {
  at = λ xs e rest.
      let e' : bs ≡ xs = ground arith in
      rw (
        ← e',
        le→leb n (length (bs ++ rest)) (omega (arith, length-append bs rest)),
        take-append_length bs rest n h,
        drop-append_length bs rest n h,
      );
}

pub Roundtrips-bool : (b : Bool) → Roundtrips read_bool (write_bool b) b
unfolding read_bool read_byte write_bool ◌>>=◌ pure
Roundtrips-bool true = record { at = λ bs e rest. rw (← ok_injective e) }
Roundtrips-bool false = record { at = λ bs e rest. rw (← ok_injective e) }

big_endian_raw : (w n : ℕ) → Roundtrips (read_raw w) (ok (big_endian w n)) (big_endian w n)
big_endian_raw w n = Roundtrips-raw w (big_endian w n) (sym (length-big_endian w n))

-- A word read back, changed by `g`.
word :
    {A : Type 0} (w n : ℕ) (g : ℕ → A)
    → n < 256 ^ w
    → Roundtrips (read_raw w >>= λ bs. pure (g (from_big_endian 0 bs))) (ok (big_endian w n)) (g n)
word w n g h =
    rw (from_big_endian-big_endian w n h) at
      (Roundtrips-map (λ bs. g (from_big_endian 0 bs)) (big_endian_raw w n))

pub Roundtrips-uint32 : (n : ℕ) → n < 2 ^ 32 → Roundtrips read_uint32 (write_uint32 n) n
unfolding read_uint32 write_uint32
Roundtrips-uint32 n h = rw (mod-eq_of_lt h) (word 4 n (λ x. x) h)

pub Roundtrips-uint64 : (n : ℕ) → n < 2 ^ 64 → Roundtrips read_uint64 (write_uint64 n) n
unfolding read_uint64 write_uint64
Roundtrips-uint64 n h = rw (mod-eq_of_lt h) (word 8 n (λ x. x) h)

fits_signed-InSigned : (m : ℕ) (z : ℤ) → fits_signed m z ≡ true → InSigned m z
unfolding fits_signed
fits_signed-InSigned m (pos n) h = ground arith
fits_signed-InSigned m (negsuc n) h = ground arith

-- A writer that raises reads back as anything.
pub Roundtrips-err : {A : Type 0} (p : Parser A) (x : WriteError) (a : A) → Roundtrips p (err x) a
Roundtrips-err p x a = record { at = λ bs e rest. cc }

signed_word :
    (w : ℕ) (z : ℤ)
    → InSigned (256 ^ w) z
    → Roundtrips
        (read_raw w >>= λ bs. pure (from_word (256 ^ w) (from_big_endian 0 bs)))
        (ok (big_endian w (to_word (256 ^ w) z)))
        z
signed_word w z h =
    rw (from_word-to_word (256 ^ w) z h) at
      (word w (to_word (256 ^ w) z) (from_word (256 ^ w)) (to_word-lt (256 ^ w) z h))

pub Roundtrips-int32 : (z : ℤ) → Roundtrips read_int32 (write_int32 z) z
unfolding read_int32 write_int32
Roundtrips-int32 z = elim (Bool-cases (fits_signed (2 ^ 32) z)) [
  | inl fits ↦ rw fits (signed_word 4 z (fits_signed-InSigned (2 ^ 32) z fits))
  | inr out ↦ rw out (Roundtrips-err _ _ _)
]

pub Roundtrips-int64 : (z : ℤ) → Roundtrips read_int64 (write_int64 z) z
unfolding read_int64 write_int64
Roundtrips-int64 z = elim (Bool-cases (fits_signed (2 ^ 64) z)) [
  | inl fits ↦ rw fits (signed_word 8 z (fits_signed-InSigned (2 ^ 64) z fits))
  | inr out ↦ rw out (Roundtrips-err _ _ _)
]

text_body :
    (s encoded rest : List ℕ)
    → encode s ≡ ok encoded
    → length encoded < 2 ^ 64
    → read_string (1 ∷ ((big_endian 8 (length encoded) ++ encoded) ++ rest)) ≡ ok (some s, rest)
unfolding read_string ◌>>=◌ read_uint64 read_byte pure
text_body s encoded rest e h = rw (
  append_assoc,
  (big_endian_raw 8 (length encoded)).at _ refl (encoded ++ rest),
  from_big_endian-big_endian 8 (length encoded) h,
  (Roundtrips-raw (length encoded) encoded refl).at _ refl rest,
  decode-encode s encoded e,
)

some_text :
    (s : Text) (r : Written)
    → encode s ≡ r
    → Roundtrips read_string (write_string (some s)) (some s)
unfolding write_string
some_text s (err x) e = rw e (Roundtrips-err _ _ _)
some_text s (ok encoded) e = rw e (elim (Bool-cases (ltb (length encoded) (2 ^ 64))) [
  | inl fits ↦ rw fits (record {
    at = λ bs h rest. rw (← ok_injective h) (text_body s encoded rest e (ltb→lt _ _ fits));
  })
  | inr out ↦ rw out (Roundtrips-err _ _ _)
])

pub Roundtrips-string : (s : Option Text) → Roundtrips read_string (write_string s) s
Roundtrips-string none = record {
  at = λ bs e rest. unfold read_string write_string read_byte ◌>>=◌ pure in rw (← ok_injective e);
}
Roundtrips-string (some s) = some_text s (encode s) refl
