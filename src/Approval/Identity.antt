-- ===== src/Approval/Identity.antt =====
-- infra/auth/identity.ts: the identity under which an actor is stored and compared.
use memphis_v.Base.{
  ℕ, Text, Bool, true, false, List, [], ◌∷◌, reverse, ◌&&◌, ◌||◌, leb, ◌==◌, if◌then◌else◌, Result,
  ok, err,
}

-- What the JavaScript engine and node:crypto give: case mapping by the Unicode tables, and the
-- hexadecimal SHA-256 digest of a text.
pub record Platform : Type 0 where
  pub to_lower_case : Text → Text
  pub sha256_hex : Text → Text

pub data IdentityError : Type 0 where
  empty_identity : IdentityError

-- The white space and line terminators that `String.prototype.trim` removes.
unfoldable pub is_space : ℕ → Bool
is_space c =
    (leb 9 c && leb c 13)
    || c == 32
    || c == 160
    || c == 0x1680
    || (leb 0x2000 c && leb c 0x200a)
    || c == 0x2028
    || c == 0x2029
    || c == 0x202f
    || c == 0x205f
    || c == 0x3000
    || c == 0xfeff

unfoldable pub trim_start : Text → Text
trim_start [] = []
trim_start (c ∷ s) = let rest = trim_start s in if is_space c then rest else c ∷ s

unfoldable pub trim : Text → Text
unfolding trim_start
trim s = reverse (trim_start (reverse (trim_start s)))

is_hex : ℕ → Bool
is_hex c = (leb b'0' c && leb c b'9') || (leb b'a' c && leb c b'f') || (leb b'A' c && leb c b'F')

is_version : ℕ → Bool
is_version c = leb b'1' c && leb c b'8'

is_variant : ℕ → Bool
is_variant c = c == b'8' || c == b'9' || c == b'a' || c == b'b' || c == b'A' || c == b'B'

is_dash : ℕ → Bool
is_dash c = c == b'-'

-- A sequence of one-character classes that has to cover the whole text, as `^...$` does.
matches_all : List (ℕ → Bool) → Text → Bool
matches_all [] [] = true
matches_all (p ∷ ps) (c ∷ s) = p c && matches_all ps s
matches_all _ _ = false

abbrev uuid_classes : List (ℕ → Bool)
uuid_classes =
    is_hex ∷ is_hex ∷ is_hex ∷ is_hex ∷ is_hex ∷ is_hex ∷ is_hex ∷ is_hex ∷ is_dash ∷ is_hex
    ∷ is_hex ∷ is_hex ∷ is_hex ∷ is_dash ∷ is_version ∷ is_hex ∷ is_hex ∷ is_hex ∷ is_dash
    ∷ is_variant ∷ is_hex ∷ is_hex ∷ is_hex ∷ is_dash ∷ is_hex ∷ is_hex ∷ is_hex ∷ is_hex ∷ is_hex
    ∷ is_hex ∷ is_hex ∷ is_hex ∷ is_hex ∷ is_hex ∷ is_hex ∷ is_hex ∷ []

unfoldable pub is_uuid : Text → Bool
unfolding matches_all is_hex is_version is_variant is_dash
is_uuid = matches_all uuid_classes

settled : Platform → Text → Result IdentityError Text
settled p [] = err empty_identity
settled p (c ∷ s) = if is_uuid (c ∷ s) then ok (c ∷ s) else ok (p.sha256_hex (c ∷ s))

unfoldable pub normalize_identity : Platform → Text → Result IdentityError Text
unfolding settled
normalize_identity p input = settled p (p.to_lower_case (trim input))
