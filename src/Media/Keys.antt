-- ===== src/Media/Keys.antt =====
-- A file name cannot lead out of the place that its object gets.
use ceylon_events.Common.{ℕ, Bool, false, ◌&&◌, ◌||◌, List, [], ◌∷◌, ◌==◌, leb, if◌then◌else◌}
use ceylon_events.Media.{is_slash, is_control}

-- A slash of either kind, or a control character.
abbrev pub is_unsafe : ℕ → Bool
is_unsafe c = is_slash c || is_control c

abbrev starts_dot : List ℕ → Bool
starts_dot [] = false
starts_dot (c ∷ s) = c == b'.'

-- Somewhere in the text there is "..".
abbrev pub has_dots : List ℕ → Bool
has_dots [] = false
has_dots (c ∷ s) = (c == b'.' && starts_dot s) || has_dots s

-- The text before the first "/".
abbrev pub folder : List ℕ → List ℕ
folder [] = []
folder (c ∷ s) = let rest = folder s in if c == b'/' then [] else c ∷ rest

-- Hexadecimal digits and dashes.
abbrev pub is_uuid_code : ℕ → Bool
is_uuid_code c = (leb b'0' c && leb c b'9') || (leb b'a' c && leb c b'f') || c == b'-'
