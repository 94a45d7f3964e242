-- ===== src/Crypto/ControlTag.antt =====
-- internal/crypto/controltag.go: the authentication tag of service frames.
use lacert.Prelude.{
  Bool, Bytes, arith, codes, false, if◌then◌else◌, length, length-take, list_beq, list_beq_iff,
  nat_beq, not, put_uint64, take, true, ℕ, ◌++◌, ◌∷◌, ◌≡◌,
}
use lacert.Crypto.Primitives.{Blake3}

abbrev pub control_tag_size : ℕ
control_tag_size = 16

abbrev control_tag_separator : Bytes
control_tag_separator = codes "lacert-control-v1"

-- What `ComputeControlTag` feeds to the hash.
unfoldable pub control_tag_input : Bytes → ℕ → ℕ → Bytes → Bytes
control_tag_input session_key frame_type iteration body =
    session_key ++ (frame_type ∷ put_uint64 iteration) ++ body ++ control_tag_separator

unfoldable pub compute_control_tag : Blake3 → Bytes → ℕ → ℕ → Bytes → Bytes
compute_control_tag hash session_key frame_type iteration body =
    take control_tag_size (hash.sum (control_tag_input session_key frame_type iteration body))

-- `true` for a nil error, `false` for `ErrControlTagMismatch`.
unfoldable pub verify_control_tag : Blake3 → Bytes → ℕ → ℕ → Bytes → Bytes → Bool
verify_control_tag hash session_key frame_type iteration body tag =
    if not (nat_beq (length tag) control_tag_size)
    then false
    else list_beq (compute_control_tag hash session_key frame_type iteration body) tag

pub length-compute_control_tag :
    (hash : Blake3) (key : Bytes) (t i : ℕ) (body : Bytes)
    → length (compute_control_tag hash key t i body) ≡ control_tag_size
unfolding compute_control_tag
length-compute_control_tag hash key t i body = omega (
  arith,
  length-take 16 (hash.sum (control_tag_input key t i body)),
  hash.length-sum (control_tag_input key t i body),
)

-- A tag passes exactly when it is the computed one.
pub verify_control_tag-eq-true :
    (hash : Blake3) (key : Bytes) (t i : ℕ) (body tag : Bytes)
    → verify_control_tag hash key t i body tag ≡ true
    → tag ≡ compute_control_tag hash key t i body
unfolding verify_control_tag
verify_control_tag-eq-true hash key t i body tag h =
    ground (arith, list_beq_iff (compute_control_tag hash key t i body) tag)

pub verify-compute :
    (hash : Blake3) (key : Bytes) (t i : ℕ) (body : Bytes)
    → verify_control_tag hash key t i body (compute_control_tag hash key t i body) ≡ true
unfolding verify_control_tag
verify-compute hash key t i body = ground (
  arith,
  length-compute_control_tag hash key t i body,
  list_beq_iff (compute_control_tag hash key t i body) (compute_control_tag hash key t i body),
)
