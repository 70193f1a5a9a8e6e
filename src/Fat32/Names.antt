-- ===== src/Fat32/Names.antt =====
-- 8.3 names and paths of kernel/fat32.cpp. A path is its characters before the terminator.
pub mod Short
use venom_os.Base.{
  ℕ, zero, suc, ◌+◌, ◌-◌, ◌≤◌, ◌<◌, ◌≡◌, ◌==◌, if◌then◌else◌, Bool, true, false, ◌&&◌, ◌||◌, Option,
  none, some, ltb, leb, List, [], ◌∷◌, ◌++◌, map, length, refl, arith, ap, Bool-cases, inl, inr,
}

unfoldable pub upper : ℕ → ℕ
upper c = if leb b'a' c && leb c b'z' then c - b'a' + b'A' else c

-- The characters before the first dot, and those after it if there is one.
unfoldable pub split_dot : List ℕ → List ℕ × Option (List ℕ)
split_dot [] = ([], none)
split_dot (c ∷ s) =
    let rest = split_dot s in if c == b'.' then ([], some s) else (c ∷ rest.0, rest.1)

pub has_dot : List ℕ → Bool
has_dot [] = false
has_dot (c ∷ s) = c == b'.' || has_dot s

-- Upper-case letters in a field of `n` bytes that was filled with blanks.
unfoldable pub field : ℕ → List ℕ → List ℕ
field zero s = []
field (suc n) [] = b' ' ∷ field n []
field (suc n) (c ∷ s) = upper c ∷ field n s

unfoldable pub short_name_of : List ℕ × Option (List ℕ) → Option (List ℕ)
short_name_of (base, none) =
    if length base == 0 || ltb 8 (length base) then none else some (field 8 base ++ field 3 [])
short_name_of (base, some ext) =
    if (length base == 0 || ltb 8 (length base))
      || (length ext == 0 || has_dot ext || ltb 3 (length ext))
    then none
    else some (field 8 base ++ field 3 ext)

-- `to_short_name`: eleven bytes, or `none` for a name that has no 8.3 form.
unfoldable pub to_short_name : List ℕ → Option (List ℕ)
to_short_name part = short_name_of (split_dot part)

abbrev pub add_component : List ℕ → List (List ℕ) → List (List ℕ)
add_component [] rest = rest
add_component (c ∷ s) rest = (c ∷ s) ∷ rest

-- What stands before the first slash, and the components after it.
unfoldable pub split_slash : List ℕ → List ℕ × List (List ℕ)
split_slash [] = ([], [])
split_slash (c ∷ path) =
    let rest = split_slash path in
    if c == b'/' then ([], add_component rest.0 rest.1) else (c ∷ rest.0, rest.1)

-- The components that `resolve` reads off a path, slashes before, between and after them skipped.
unfoldable pub components : List ℕ → List (List ℕ)
components path = add_component (split_slash path).0 (split_slash path).1
