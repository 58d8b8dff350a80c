-- ===== src/Crypto/Multi.antt =====
-- `find_arqo_positions` and `verify_multi_object_arqos` of arq_validator/crypto.py.
use arq_backup_tui.Common.{
  Bool-cases, inl, inr, ℕ, suc, ◌+◌, ◌-◌, ◌≤◌, ◌≡◌, refl, sym, ap, ◌∙◌, Bool, true, false, List, [],
  ◌∷◌, arith, length, length-drop, take, drop, ltb, list_eq, list_eq_iff, if◌then◌else◌,
}
use arq_backup_tui.Common.Slices.{slice, take_all}
use arq_backup_tui.Crypto.Primitives.{Primitives}
use arq_backup_tui.Crypto.ObjectRoundTrip.{verify_computed}
use arq_backup_tui.Crypto.Object.{arqo_magic, verify_encrypted_object_hmac}

-- The offsets of the magic in what is left of the body from `o` on.
unfoldable pub positions_from : List ℕ → ℕ → List ℕ
positions_from [] o = []
positions_from (b ∷ bs) o =
    let rest = positions_from bs (o + 1) in
    if list_eq (take 4 (b ∷ bs)) arqo_magic then o ∷ rest else rest

unfoldable pub find_arqo_positions : List ℕ → List ℕ
find_arqo_positions body = positions_from body 0

-- `(n_ok, n_fail, fail_offsets)`
pub record MultiResult : Type 0 where
  pub n_ok : ℕ
  pub n_fail : ℕ
  pub fail_offsets : List ℕ

unfoldable pub object_ok : MultiResult → MultiResult
object_ok rest = record rest { n_ok = suc rest.n_ok }

unfoldable pub object_failed : ℕ → MultiResult → MultiResult
object_failed pos rest = record rest {
  n_fail = suc rest.n_fail;
  fail_offsets = pos ∷ rest.fail_offsets;
}

-- One round of the loop: the object from `pos` to `stop`, before the result of those behind it.
unfoldable pub check_object : Primitives → List ℕ → List ℕ → ℕ → ℕ → MultiResult → MultiResult
check_object p body hmac_key pos stop rest =
    if ltb stop (pos + 36)
    then object_failed pos rest
    else let stored = slice body (pos + 4) 32 in
      let inner_body = slice body (pos + 36) (stop - (pos + 36)) in
      let calc = p.hmac hmac_key inner_body in
      if list_eq calc stored then object_ok rest else object_failed pos rest

unfoldable pub verify_positions : Primitives → List ℕ → List ℕ → List ℕ → MultiResult
verify_positions p body hmac_key [] = record { n_ok = 0; n_fail = 0; fail_offsets = [] }
verify_positions p body hmac_key (pos ∷ []) =
    check_object p body hmac_key pos (length body)
      record { n_ok = 0; n_fail = 0; fail_offsets = [] }
verify_positions p body hmac_key (pos ∷ next ∷ more) =
    check_object p body hmac_key pos next (verify_positions p body hmac_key (next ∷ more))

unfoldable pub verify_multi_object_arqos : Primitives → List ℕ → List ℕ → MultiResult
verify_multi_object_arqos p body hmac_key =
    verify_positions p body hmac_key (find_arqo_positions body)

abbrev pub one_object : Bool → MultiResult
one_object true = record { n_ok = 1; n_fail = 0; fail_offsets = [] }
one_object false = record { n_ok = 0; n_fail = 1; fail_offsets = 0 ∷ [] }

check_one :
    (p : Primitives) (body hmac_key : List ℕ)
    → 116 ≤ length body
    → check_object p body hmac_key 0
        (length body)
        record { n_ok = 0; n_fail = 0; fail_offsets = [] }
      ≡ one_object (list_eq (p.hmac hmac_key (drop 36 body)) (slice body 4 32))
unfolding check_object object_ok object_failed
check_one p body hmac_key long =
    let enough : ltb (length body) (0 + 36) ≡ false = ground arith in
    let all : take (length body - (0 + 36)) (drop (0 + 36) body) ≡ drop 36 body =
      take_all (length body - (0 + 36)) (drop 36 body) (omega (arith, length-drop 36 body)) in
    elim (Bool-cases (list_eq (p.hmac hmac_key (drop 36 body)) (slice body 4 32))) [
      | inl good ↦ rw enough (rw (all, good) refl)
      | inr bad ↦ rw enough (rw (all, bad) refl)
    ]

-- For a file that has the magic at its start and nowhere else, and the length of a header at least,
-- verify_multi_object_arqos counts one object, as good exactly where verify_encrypted_object_hmac says so.
pub verify_multi_object_arqos-single :
    (p : Primitives) (body hmac_key : List ℕ)
    → find_arqo_positions body ≡ 0 ∷ []
    → take 4 body ≡ arqo_magic
    → 116 ≤ length body
    → verify_multi_object_arqos p body hmac_key
      ≡ one_object (verify_encrypted_object_hmac p body hmac_key).0
unfolding verify_multi_object_arqos verify_positions
verify_multi_object_arqos-single p body hmac_key one magic long =
    ap (verify_positions p body hmac_key) one
    ∙ check_one p body hmac_key long
    ∙ ap one_object (
        sym (
          verify_computed p body hmac_key (ground arith)
            ((list_eq_iff (take 4 body) arqo_magic).1 magic)))
