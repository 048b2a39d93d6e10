-- ===== src/Bytes/Text.antt =====
-- source/util/bytes.cpp: `trim`, `starts_with`, `iequals` and `split`. A text is the list of its bytes;
-- `isspace` and `tolower` are those of the C locale.
pub mod Laws
use torfoil.Prelude.{
  ℕ, suc, ◌+◌, ◌≤◌, ◌<◌, ◌≡◌, refl, ◌≢◌, ◌⊎◌, inl, inr, Bool, true, false, ◌&&◌, ◌||◌, List, [],
  ◌∷◌, ◌++◌, arith, ltb, leb, ◌==◌, if◌then◌else◌, length, take, All, Bytes, Bool-cases, ap,
  append_assoc,
}
use torfoil.Bytes.Hex.{to_lower}
use torfoil.Bytes.Sanitize.{drop_back}

-- Blank, and the controls from tab to carriage return.
unfoldable pub is_space : ℕ → Bool
is_space c = c == b' ' || leb 9 c && leb c 13

unfoldable pub drop_front : Bytes → Bytes
drop_front [] = []
drop_front (c ∷ s) = if is_space c then drop_front s else c ∷ s

-- The first loop moves the begin forward, the second the end back, not beyond the begin.
unfoldable pub trim : Bytes → Bytes
unfolding drop_front is_space
trim s = drop_back is_space (drop_front s)

unfoldable pub starts_with : Bytes → Bytes → Bool
starts_with s [] = true
starts_with [] (p ∷ prefix) = false
starts_with (c ∷ s) (p ∷ prefix) = c == p && starts_with s prefix

same_letters : Bytes → Bytes → Bool
unfolding to_lower
same_letters [] b = true
same_letters (c ∷ a) [] = true
same_letters (c ∷ a) (d ∷ b) = to_lower c == to_lower d && same_letters a b

unfoldable pub iequals : Bytes → Bytes → Bool
unfolding same_letters
iequals a b = if length a == length b then same_letters a b else false

-- A character in front of the first part.
push_front : ℕ → List Bytes → List Bytes
push_front c [] = (c ∷ []) ∷ []
push_front c (part ∷ parts) = (c ∷ part) ∷ parts

unfoldable pub split : Bytes → ℕ → List Bytes
unfolding push_front
split [] sep = [] ∷ []
split (c ∷ s) sep = if c == sep then [] ∷ split s sep else push_front c (split s sep)
