-- ===== src/Wire/Stable.antt =====
-- The readers of arq_reader/parse.py do not depend on what follows their input.
use arq_backup_tui.Common.{
  ℕ, zero, suc, ◌≡◌, refl, sym, ◌∙◌, Bool, true, false, none, List, ◌++◌, length-append, arith, inl,
  inr, ◌⊎◌, if◌then◌else◌,
}
use arq_backup_tui.Common.Slices.{take-append_le, drop-append_le}
use arq_backup_tui.Common.Result.{Result, ok, err}
use arq_backup_tui.Wire.Errors.{ParseError, bad_string_flag}
use arq_backup_tui.Wire.Reader.{
  Parser, ◌>>=◌, pure, fail, read_raw, read_byte, read_text, read_string_after, read_bool,
  read_uint32, read_uint64, read_int32, read_int64, read_string,
}

-- More input changes neither a result nor the error that is not about the end of the input.
pub record IsStable {A : Type 0} (p : Parser A) : Type 0 where
  pub on_ok :
      (bs more : List ℕ) (a : A) (rest : List ℕ)
      → p bs ≡ ok (a, rest)
      → p (bs ++ more) ≡ ok (a, rest ++ more)
  pub on_flag :
      (bs more : List ℕ) → p bs ≡ err bad_string_flag → p (bs ++ more) ≡ err bad_string_flag

pub IsStable-pure : {A : Type 0} (a : A) → IsStable (pure a)
unfolding pure
IsStable-pure a = record { on_ok = λ bs more b rest e. ground arith; on_flag = λ bs more e. cc }

IsStable-fail : {A : Type 0} → IsStable (fail {A = A} bad_string_flag)
unfolding fail
IsStable-fail = record { on_ok = λ bs more b rest e. cc; on_flag = λ bs more e. refl }

bind_cases :
    {A B : Type 0} (p : Parser A) (f : A → Parser B) (bs : List ℕ)
    → ((a : A) × (rest : List ℕ) × (p bs ≡ ok (a, rest)) × ((p >>= f) bs ≡ f a rest))
      ⊎ ((e : ParseError) × (p bs ≡ err e) × ((p >>= f) bs ≡ err e))
unfolding ◌>>=◌
bind_cases {A} p f bs = go (p bs) refl
  where
    go :
        (r : Result ParseError (A × List ℕ))
        → p bs ≡ r
        → ((a : A) × (rest : List ℕ) × (p bs ≡ ok (a, rest)) × ((p >>= f) bs ≡ f a rest))
          ⊎ ((e : ParseError) × (p bs ≡ err e) × ((p >>= f) bs ≡ err e))
    go (ok (a, rest)) e = inl (a, rest, e, rw e)
    go (err x) e = inr (x, e, rw e)

bind_step_ok :
    {A B : Type 0} (p : Parser A) (f : A → Parser B) (a : A) (bs rest : List ℕ)
    → p bs ≡ ok (a, rest)
    → (p >>= f) bs ≡ f a rest
unfolding ◌>>=◌
bind_step_ok p f a bs rest h = rw h

bind_step_err :
    {A B : Type 0} (p : Parser A) (f : A → Parser B) (e : ParseError) (bs : List ℕ)
    → p bs ≡ err e
    → (p >>= f) bs ≡ err e
unfolding ◌>>=◌
bind_step_err p f e bs h = rw h

pub IsStable-bind :
    {A B : Type 0} (p : Parser A) (f : A → Parser B)
    → IsStable p
    → ((a : A) → IsStable (f a))
    → IsStable (p >>= f)
IsStable-bind p f sp sf = record {
  on_ok = λ bs more b rest e. elim (bind_cases p f bs) [
    | inl (a, mid, ea, step) ↦
        bind_step_ok p f a (bs ++ more) (mid ++ more) (sp.on_ok bs more a mid ea)
        ∙ (sf a).on_ok mid more b rest (sym step ∙ e)
    | inr (x, ex, step) ↦ cc (step, e)
  ];
  on_flag = λ bs more e. elim (bind_cases p f bs) [
    | inl (a, mid, ea, step) ↦
        bind_step_ok p f a (bs ++ more) (mid ++ more) (sp.on_ok bs more a mid ea)
        ∙ (sf a).on_flag mid more (sym step ∙ e)
    | inr (x, ex, step) ↦
        let same : x ≡ bad_string_flag = cc (step, e) in
        bind_step_err p f bad_string_flag (bs ++ more) (sp.on_flag bs more (rw same at ex))
  ];
}

pub IsStable-if :
    {A : Type 0} (b : Bool) (p q : Parser A)
    → IsStable p
    → IsStable q
    → IsStable (if b then p else q)
IsStable-if true p q sp sq = sp
IsStable-if false p q sp sq = sq

pub IsStable-raw : (n : ℕ) → IsStable (read_raw n)
unfolding read_raw
IsStable-raw n = record {
  on_ok = λ bs more a rest e.
      ground (arith, length-append bs more, take-append_le n bs more, drop-append_le n bs more);
  on_flag = λ bs more e. ground arith;
}

IsStable-byte : IsStable read_byte
unfolding read_byte
IsStable-byte = record {
  on_ok = λ bs more a rest e. ground arith;
  on_flag = λ bs more e. ground arith;
}

pub IsStable-bool : IsStable read_bool
unfolding read_bool
IsStable-bool = IsStable-bind _ _ IsStable-byte λ _. IsStable-pure _

pub IsStable-uint32 : IsStable read_uint32
unfolding read_uint32
IsStable-uint32 = IsStable-bind _ _ (IsStable-raw 4) λ _. IsStable-pure _

pub IsStable-uint64 : IsStable read_uint64
unfolding read_uint64
IsStable-uint64 = IsStable-bind _ _ (IsStable-raw 8) λ _. IsStable-pure _

pub IsStable-int32 : IsStable read_int32
unfolding read_int32
IsStable-int32 = IsStable-bind _ _ (IsStable-raw 4) λ _. IsStable-pure _

pub IsStable-int64 : IsStable read_int64
unfolding read_int64
IsStable-int64 = IsStable-bind _ _ (IsStable-raw 8) λ _. IsStable-pure _

IsStable-text : IsStable read_text
unfolding read_text
IsStable-text =
    IsStable-bind _ _ IsStable-uint64
      λ size. IsStable-bind _ _ (IsStable-raw size) λ _. IsStable-pure _

IsStable-string_after : (flag : ℕ) → IsStable (read_string_after flag)
unfolding read_string_after
IsStable-string_after zero = IsStable-pure none
IsStable-string_after (suc zero) = IsStable-text
IsStable-string_after (suc (suc flag)) = IsStable-fail

pub IsStable-string : IsStable read_string
unfolding read_string
IsStable-string = IsStable-bind _ _ IsStable-byte λ flag. IsStable-string_after flag
