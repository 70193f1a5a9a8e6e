-- ===== src/Fat32/Names/Short.antt =====
-- The shape of 8.3 names.
use venom_os.Base.{
  ℕ, zero, suc, ◌+◌, ◌≡◌, ◌==◌, ◌∙◌, ap, Option, none, some, List, [], ◌∷◌, ◌++◌, map, length, refl,
  arith, Bool-cases, inl, inr,
}
use venom_os.Fat32.Names.{upper, split_dot, has_dot, field, short_name_of, to_short_name}

length-field : (n : ℕ) (s : List ℕ) → length (field n s) ≡ n
unfolding field
length-field zero s = refl
length-field (suc n) [] = omega (arith, length-field n [])
length-field (suc n) (c ∷ s) = omega (arith, length-field n s)

length-append : (s t : List ℕ) → length (s ++ t) ≡ length s + length t
length-append [] t = omega arith
length-append (c ∷ s) t = omega (arith, length-append s t)

length-short_name_of :
    (p : List ℕ × Option (List ℕ)) (name : List ℕ) → short_name_of p ≡ some name → length name ≡ 11
unfolding short_name_of
length-short_name_of (base, none) name e =
    ground
      (arith, length-append (field 8 base) (field 3 []), length-field 8 base, length-field 3 [])
length-short_name_of (base, some ext) name e =
    ground
      (arith, length-append (field 8 base) (field 3 ext), length-field 8 base, length-field 3 ext)

-- A name that has an 8.3 form has one of eleven bytes.
pub length-to_short_name : (part name : List ℕ) → to_short_name part ≡ some name → length name ≡ 11
unfolding to_short_name
length-to_short_name part name e = length-short_name_of (split_dot part) name e

upper_twice : (c : ℕ) → upper (upper c) ≡ upper c
unfolding upper
upper_twice c = ground arith

upper-dot : (c : ℕ) → (upper c == b'.') ≡ (c == b'.')
unfolding upper
upper-dot c = ground arith

length-map : (s : List ℕ) → length (map upper s) ≡ length s
length-map [] = refl
length-map (c ∷ s) = omega (arith, length-map s)

abbrev upper_ext : Option (List ℕ) → Option (List ℕ)
upper_ext none = none
upper_ext (some ext) = some (map upper ext)

split_dot-upper :
    (s : List ℕ) → split_dot (map upper s) ≡ (map upper (split_dot s).0, upper_ext (split_dot s).1)
unfolding split_dot
split_dot-upper [] = refl
split_dot-upper (c ∷ s) = elim (Bool-cases (c == b'.')) [
  | inl dot ↦ rw (upper-dot c, dot) refl
  | inr other ↦ rw (upper-dot c, other, split_dot-upper s) refl
]

has_dot-upper : (s : List ℕ) → has_dot (map upper s) ≡ has_dot s
unfolding has_dot
has_dot-upper [] = refl
has_dot-upper (c ∷ s) = rw (upper-dot c, has_dot-upper s) refl

field-upper : (n : ℕ) (s : List ℕ) → field n (map upper s) ≡ field n s
unfolding field
field-upper zero s = refl
field-upper (suc n) [] = refl
field-upper (suc n) (c ∷ s) = rw (upper_twice c, field-upper n s) refl

short_name_of-upper :
    (base : List ℕ) (ext : Option (List ℕ))
    → short_name_of (map upper base, upper_ext ext) ≡ short_name_of (base, ext)
unfolding short_name_of
short_name_of-upper base none = rw (length-map base, field-upper 8 base) refl
short_name_of-upper base (some ext) =
    rw (length-map base, length-map ext, has_dot-upper ext, field-upper 8 base, field-upper 3 ext)
      refl

-- The 8.3 form of a name does not depend on the case of its letters, and neither does whether it
-- has one.
pub to_short_name-upper : (part : List ℕ) → to_short_name (map upper part) ≡ to_short_name part
unfolding to_short_name
to_short_name-upper part =
    ap short_name_of (split_dot-upper part)
    ∙ short_name_of-upper (split_dot part).0 (split_dot part).1
