-- ===== src/Wire/Utf8.antt =====
-- Python's "utf-8" codec, as `value.encode("utf-8")` of arq_writer/serialize.py and
-- `.decode("utf-8", errors="replace")` of arq_reader/parse.py use it. A text is its code points.
use arq_backup_tui.Common.{
  ℕ, zero, suc, ◌+◌, ◌-◌, ◌*◌, ◌/◌, ◌%◌, ◌≤◌, ◌<◌, ◌≡◌, Bool, ◌&&◌, List, [], ◌∷◌, ◌++◌, arith, ltb,
  leb, ◌==◌, if◌then◌else◌, ap, ◌∙◌, true, ◌||◌, Bool-cases, inl, inr,
}
use arq_backup_tui.Common.Result.{Result, ok, err, ◌>>=◌, bind_returned}
use arq_backup_tui.Wire.Errors.{WriteError, bad_text}

-- No surrogate, and in the range of Unicode.
abbrev pub is_scalar : ℕ → Bool
is_scalar c = ltb c 0xd800 || (leb 0xe000 c && ltb c 0x11_0000)

unfoldable pub encode_char : ℕ → List ℕ
encode_char c =
    if ltb c 0x80
    then c ∷ []
    else if ltb c 0x800
    then (0xc0 + c / 64) ∷ (0x80 + c % 64) ∷ []
    else if ltb c 0x1_0000
    then (0xe0 + c / 4096) ∷ (0x80 + c / 64 % 64) ∷ (0x80 + c % 64) ∷ []
    else (0xf0 + c / 0x4_0000)
      ∷ (0x80 + c / 4096 % 64)
      ∷ (0x80 + c / 64 % 64)
      ∷ (0x80 + c % 64)
      ∷ []

-- A lone surrogate raises `UnicodeEncodeError`.
unfoldable pub encode : List ℕ → Result WriteError (List ℕ)
encode [] = ok []
encode (c ∷ cs) =
    let rest = encode cs in
    if is_scalar c then (rest >>= λ bs. ok (encode_char c ++ bs)) else err bad_text

-- Where the decoder is in a sequence: how many bytes it still wants, the bits so far, and the range
-- of the next byte.
pub data Pending : Type 0 where
  idle : Pending
  need : ℕ → ℕ → ℕ → ℕ → Pending

abbrev replacement : ℕ
replacement = 0xfffd

start : ℕ → List ℕ × Pending
start b =
    if ltb b 0x80
    then (b ∷ [], idle)
    else if ltb b 0xc2
    then (replacement ∷ [], idle)
    else if ltb b 0xe0
    then ([], need 0 (b - 0xc0) 0x80 0xbf)
    else if ltb b 0xf0
    then (
      [],
      need 1 (b - 0xe0) (if b == 0xe0 then 0xa0 else 0x80) (if b == 0xed then 0x9f else 0xbf),
    )
    else if ltb b 0xf5
    then (
      [],
      need 2 (b - 0xf0) (if b == 0xf0 then 0x90 else 0x80) (if b == 0xf4 then 0x8f else 0xbf),
    )
    else (replacement ∷ [], idle)

-- `need n` wants `n + 1` more bytes. A byte out of range ends the sequence, which gives one
-- replacement character, and starts the next.
decode_byte : Pending → ℕ → List ℕ × Pending
unfolding start
decode_byte idle b = start b
decode_byte (need zero acc lo hi) b =
    if leb lo b && leb b hi
    then ((acc * 64 + (b - 0x80)) ∷ [], idle)
    else (replacement ∷ (start b).0, (start b).1)
decode_byte (need (suc n) acc lo hi) b =
    if leb lo b && leb b hi
    then ([], need n (acc * 64 + (b - 0x80)) 0x80 0xbf)
    else (replacement ∷ (start b).0, (start b).1)

pub decode_from : Pending → List ℕ → List ℕ
decode_from idle [] = []
decode_from (need n acc lo hi) [] = replacement ∷ []
decode_from p (b ∷ bs) = (decode_byte p b).0 ++ decode_from (decode_byte p b).1 bs

unfoldable pub decode_replace : List ℕ → List ℕ
unfolding decode_from decode_byte
decode_replace bs = decode_from idle bs

decode_from_step :
    (p : Pending) (b : ℕ) (bs out : List ℕ) (p' : Pending)
    → decode_byte p b ≡ (out, p')
    → decode_from p (b ∷ bs) ≡ out ++ decode_from p' bs
unfolding decode_from
decode_from_step idle b bs out p' e = rw e
decode_from_step (need n acc lo hi) b bs out p' e = rw e

last_byte :
    (acc lo hi y : ℕ)
    → lo ≤ 0x80 + y
    → 0x80 + y ≤ hi
    → decode_byte (need 0 acc lo hi) (0x80 + y) ≡ ((acc * 64 + y) ∷ [], idle)
unfolding decode_byte
last_byte acc lo hi y p q = ground arith

inner_byte :
    (n acc lo hi y : ℕ)
    → lo ≤ 0x80 + y
    → 0x80 + y ≤ hi
    → decode_byte (need (suc n) acc lo hi) (0x80 + y) ≡ ([], need n (acc * 64 + y) 0x80 0xbf)
unfolding decode_byte
inner_byte n acc lo hi y p q = ground arith

abbrev low_three : ℕ → ℕ
low_three b = if b == 0xe0 then 0xa0 else 0x80

abbrev high_three : ℕ → ℕ
high_three b = if b == 0xed then 0x9f else 0xbf

abbrev low_four : ℕ → ℕ
low_four b = if b == 0xf0 then 0x90 else 0x80

abbrev high_four : ℕ → ℕ
high_four b = if b == 0xf4 then 0x8f else 0xbf

lead_one : (b : ℕ) → b < 0x80 → decode_byte idle b ≡ (b ∷ [], idle)
unfolding decode_byte
lead_one b h = ground arith

lead_two : (x : ℕ) → 2 ≤ x → x < 32 → decode_byte idle (0xc0 + x) ≡ ([], need 0 x 0x80 0xbf)
unfolding decode_byte
lead_two x h k = ground arith

lead_three :
    (x : ℕ)
    → x < 16
    → decode_byte idle (0xe0 + x) ≡ ([], need 1 x (low_three (0xe0 + x)) (high_three (0xe0 + x)))
unfolding decode_byte
lead_three x h = ground arith

lead_four :
    (x : ℕ)
    → x < 5
    → decode_byte idle (0xf0 + x) ≡ ([], need 2 x (low_four (0xf0 + x)) (high_four (0xf0 + x)))
unfolding decode_byte
lead_four x h = ground arith

two_bytes :
    (x y : ℕ) (rest : List ℕ)
    → 2 ≤ x
    → x < 32
    → y < 64
    → decode_from idle ((0xc0 + x) ∷ (0x80 + y) ∷ rest) ≡ (x * 64 + y) ∷ decode_from idle rest
two_bytes x y rest h k l =
    decode_from_step idle _ _ _ _ (lead_two x h k)
    ∙ decode_from_step _ _ rest _ _ (last_byte x 0x80 0xbf y (omega arith) (omega arith))

three_bytes :
    (x y z : ℕ) (rest : List ℕ)
    → x < 16
    → y < 64
    → z < 64
    → low_three (0xe0 + x) ≤ 0x80 + y
    → 0x80 + y ≤ high_three (0xe0 + x)
    → decode_from idle ((0xe0 + x) ∷ (0x80 + y) ∷ (0x80 + z) ∷ rest)
      ≡ ((x * 64 + y) * 64 + z) ∷ decode_from idle rest
three_bytes x y z rest h k l lo hi =
    decode_from_step idle _ _ _ _ (lead_three x h)
    ∙ decode_from_step _ _ _ _ _ (inner_byte 0 x _ _ y lo hi)
    ∙ decode_from_step _ _ rest _ _ (last_byte (x * 64 + y) 0x80 0xbf z (omega arith) (omega arith))

four_bytes :
    (x y z w : ℕ) (rest : List ℕ)
    → x < 5
    → y < 64
    → z < 64
    → w < 64
    → low_four (0xf0 + x) ≤ 0x80 + y
    → 0x80 + y ≤ high_four (0xf0 + x)
    → decode_from idle ((0xf0 + x) ∷ (0x80 + y) ∷ (0x80 + z) ∷ (0x80 + w) ∷ rest)
      ≡ (((x * 64 + y) * 64 + z) * 64 + w) ∷ decode_from idle rest
four_bytes x y z w rest h k l m lo hi =
    decode_from_step idle _ _ _ _ (lead_four x h)
    ∙ decode_from_step _ _ _ _ _ (inner_byte 1 x _ _ y lo hi)
    ∙ decode_from_step _ _ _ _ _ (inner_byte 0 (x * 64 + y) 0x80 0xbf z (omega arith) (omega arith))
    ∙ decode_from_step _ _ rest _ _
        (last_byte ((x * 64 + y) * 64 + z) 0x80 0xbf w (omega arith) (omega arith))

decode_from-encode_char :
    (c : ℕ) (rest : List ℕ)
    → is_scalar c ≡ true
    → decode_from idle (encode_char c ++ rest) ≡ c ∷ decode_from idle rest
unfolding encode_char
decode_from-encode_char c rest h =
    let back = λ (n : ℕ) (e : n ≡ c). ap (λ (m : ℕ). m ∷ decode_from idle rest) e in
    elim (Bool-cases (ltb c 0x80)) [
      | inl p ↦ rw p (decode_from_step idle c rest _ _ (lead_one c (ground arith)))
      | inr p ↦ rw p (elim (Bool-cases (ltb c 0x800)) [
        | inl q ↦ rw q (
            two_bytes (c / 64) (c % 64) rest (ground arith) (ground arith) (omega arith)
            ∙ back _ (omega arith))
        | inr q ↦ rw q (elim (Bool-cases (ltb c 0x1_0000)) [
          | inl r ↦ rw r (
              three_bytes (c / 4096) (c / 64 % 64) (c % 64) rest (ground arith) (omega arith)
                (omega arith) (ground arith) (ground arith)
              ∙ back _ (omega arith))
          | inr r ↦ rw r (
              four_bytes (c / 0x4_0000) (c / 4096 % 64) (c / 64 % 64) (c % 64) rest (ground arith)
                (omega arith) (omega arith) (omega arith) (ground arith) (ground arith)
              ∙ back _ (omega arith))
        ])
      ])
    ]

-- What `encode` accepts, `decode_replace` gives back.
pub decode-encode : (s bs : List ℕ) → encode s ≡ ok bs → decode_replace bs ≡ s
unfolding encode decode_replace
decode-encode [] bs h = ground arith
decode-encode (c ∷ cs) bs h = elim (Bool-cases (is_scalar c)) [
  | inl good ↦
      let (more, e, f) =
        bind_returned (encode cs) (λ x. ok (encode_char c ++ x)) bs (rw good at h) in
      cc (f, decode_from-encode_char c more good, decode-encode cs more e)
  | inr bad ↦ cc (rw bad at h)
]
