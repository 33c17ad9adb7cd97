-- ===== src/Agent/Jwt.antt =====
-- jwt_utils.py and the bearer header of api.py. `claims` is the base64 and JSON decoding of a
-- payload: none where it raises, else the payload's `sub`.
use atlas_compliance_copilot.Prelude.{
  ℕ, ◌-◌, ◌%◌, ◌≡◌, refl, false, String, Option, none, some, [], ◌∷◌, ◌++◌, length, replicate,
  str_eq, arith, mem_ℕ, if◌then◌else◌, ◌==◌, length-append, length-replicate,
}
use atlas_compliance_copilot.Agent.Amounts.{Text}

-- token.split("."), in its first part and the rest behind the dot.
before_dot : Text → Text
before_dot [] = []
before_dot (c ∷ t) = let rest = before_dot t in if c == b'.' then [] else c ∷ rest

after_dot : Text → Option Text
after_dot [] = none
after_dot (c ∷ t) = let rest = after_dot t in if c == b'.' then some t else rest

-- "=" * (-len(payload) % 4)
unfoldable pub padded : Text → Text
padded payload = payload ++ replicate ((4 - length payload % 4) % 4) b'='

non_empty : Option String → Option String
non_empty none = none
non_empty (some sub) = if str_eq sub "" then none else some sub

pub sub_of : Option (Option String) → Option String
unfolding non_empty
sub_of none = none
sub_of (some sub) = non_empty sub

payload_sub : (Text → Option (Option String)) → Option Text → Option String
unfolding before_dot padded sub_of
payload_sub claims none = none
payload_sub claims (some rest) = sub_of (claims (padded (before_dot rest)))

-- none stands for the ValueError.
unfoldable pub jwt_sub : (Text → Option (Option String)) → Text → Option String
unfolding after_dot payload_sub
jwt_sub claims token = payload_sub claims (after_dot token)

-- The "Bearer " prefix of the Authorization header; none stands for the 401.
without_prefix : Text → Text → Option Text
without_prefix [] t = some t
without_prefix (p ∷ ps) [] = none
without_prefix (p ∷ ps) (c ∷ t) = let rest = without_prefix ps t in if p == c then rest else none

abbrev bearer_prefix : Text
bearer_prefix = b'B' ∷ b'e' ∷ b'a' ∷ b'r' ∷ b'e' ∷ b'r' ∷ b' ' ∷ []

unfoldable pub bearer_of : Option Text → Option Text
unfolding without_prefix
bearer_of none = none
bearer_of (some header) = without_prefix bearer_prefix header

-- The padded payload is a whole number of base64 quanta.
pub length-padded : (payload : Text) → length (padded payload) % 4 ≡ 0
unfolding padded
length-padded payload = omega (
  arith,
  length-append {A = ℕ} payload (replicate ((4 - length payload % 4) % 4) b'='),
  length-replicate {A = ℕ} ((4 - length payload % 4) % 4) b'=',
)

after_dot-append :
    (header rest : Text)
    → mem_ℕ b'.' header ≡ false
    → after_dot (header ++ (b'.' ∷ rest)) ≡ some rest
unfolding after_dot
after_dot-append [] rest h = refl
after_dot-append (c ∷ header) rest h = ground (arith, after_dot-append header rest (ground arith))

before_dot-append :
    (payload rest : Text)
    → mem_ℕ b'.' payload ≡ false
    → before_dot (payload ++ (b'.' ∷ rest)) ≡ payload
unfolding before_dot
before_dot-append [] rest h = refl
before_dot-append (c ∷ payload) rest h =
    ground (arith, before_dot-append payload rest (ground arith))

-- A token of three parts gives the subject of the middle one, if that decodes to a non-empty one.
pub jwt_sub-token :
    (claims : Text → Option (Option String)) (header payload signature : Text)
    → mem_ℕ b'.' header ≡ false
    → mem_ℕ b'.' payload ≡ false
    → jwt_sub claims (header ++ (b'.' ∷ (payload ++ (b'.' ∷ signature))))
      ≡ sub_of (claims (padded payload))
unfolding jwt_sub payload_sub
jwt_sub-token claims header payload signature h k = rw (
  after_dot-append header (payload ++ (b'.' ∷ signature)) h,
  payload_sub,
  before_dot-append payload signature k,
)
