-- ===== src/Fs/Files/Names.antt =====
-- Names of files: what `copy_name` copies `name_equals` finds again, and the slot that `find` returns.
use venom_os.Base.{
  ℕ, zero, suc, ◌+◌, ◌-◌, ◌≤◌, ◌<◌, ◌≡◌, ◌==◌, Bool, true, false, ◌&&◌, sym, ◌∙◌, ap, arith, inl,
  inr, ℕ_discrete, some, Bool-cases,
}
use venom_os.Base.Memory.{update}
use venom_os.Fs.{
  FileEntry, max_filename, max_files, is_used, name_equals_from, name_equals, copy_name_from,
  copy_name,
}
use venom_os.Fs.Files.{find_from, find, name_fits}

copy_name_from-below :
    (left i : ℕ) (dest src : ℕ → ℕ) (j : ℕ) → j < i → copy_name_from left i dest src j ≡ dest j
unfolding copy_name_from
copy_name_from-below zero i dest src j lt = ground arith
copy_name_from-below (suc left) i dest src j lt =
    let rest = copy_name_from-below left (i + 1) (update dest i (src i)) src j (omega arith) in
    ground arith

name_equals_from-copy :
    (left i : ℕ) (dest name : ℕ → ℕ)
    → name_fits (suc left) i name ≡ true
    → name_equals_from (suc left) i (copy_name_from left i dest name) name ≡ true
unfolding name_fits name_equals_from copy_name_from
name_equals_from-copy zero i dest name fits = ground arith
name_equals_from-copy (suc left) i dest name fits = elim (Bool-cases (name i == 0)) [
  | inl end ↦ ground arith
  | inr on ↦
      let rest = name_equals_from-copy left (i + 1) (update dest i (name i)) name (ground arith) in
      let here = copy_name_from-below left (i + 1) (update dest i (name i)) name i (omega arith) in
      ground arith
]

-- A name that fits is found again under its copy.
pub name_equals-copy_name :
    (dest name : ℕ → ℕ)
    → name_fits max_filename 0 name ≡ true
    → name_equals (copy_name dest name) name ≡ true
unfolding name_equals copy_name
name_equals-copy_name dest name fits = name_equals_from-copy (max_filename - 1) 0 dest name fits

abbrev pub is_named : (ℕ → FileEntry) → (ℕ → ℕ) → ℕ → Bool
is_named t name i = is_used (t i) && name_equals (t i).name name

find_from-first :
    (left i : ℕ) (t : ℕ → FileEntry) (name : ℕ → ℕ) (slot : ℕ)
    → i ≤ slot
    → slot < i + left
    → ((k : ℕ) → i ≤ k → k < slot → is_named t name k ≡ false)
    → is_named t name slot ≡ true
    → find_from left i t name ≡ some slot
unfolding find_from
find_from-first zero i t name slot le lt others this = absurd (omega arith)
find_from-first (suc left) i t name slot le lt others this = elim (ℕ_discrete i slot) [
  | yes same ↦
      let here : is_named t name i ≡ true = ap (is_named t name) same ∙ this in ground arith
  | no later ↦
      let here = others i (omega arith) (omega arith) in
      let rest =
        find_from-first left (i + 1) t name slot (omega arith) (omega arith)
          (λ k p q. others k (omega arith) q) this in
      ground arith
]

pub find-first :
    (t : ℕ → FileEntry) (name : ℕ → ℕ) (slot : ℕ)
    → slot < max_files
    → ((k : ℕ) → k < slot → is_named t name k ≡ false)
    → is_named t name slot ≡ true
    → find t name ≡ some slot
unfolding find
find-first t name slot lt others this =
    find_from-first max_files 0 t name slot (omega arith) (omega arith) (λ k p q. others k q) this

find_from-before :
    (left i : ℕ) (t : ℕ → FileEntry) (name : ℕ → ℕ) (k : ℕ)
    → i ≤ k
    → k < i + left
    → ((slot : ℕ) → find_from left i t name ≡ some slot → k < slot)
    → is_named t name k ≡ false
unfolding find_from
find_from-before zero i t name k le lt first = absurd (omega arith)
find_from-before (suc left) i t name k le lt first = elim (Bool-cases (is_named t name i)) [
  | inl here ↦ let f = first i in ground arith
  | inr on ↦ elim (ℕ_discrete i k) [
    | yes same ↦ ap (is_named t name) (sym same) ∙ on
    | no later ↦
        find_from-before left (i + 1) t name k (omega arith) (omega arith)
          (λ slot e. first slot (ground arith))
  ]
]

-- No slot before the one that is found has the name, and none at all when it is not found.
pub find-before :
    (t : ℕ → FileEntry) (name : ℕ → ℕ) (k : ℕ)
    → k < max_files
    → ((slot : ℕ) → find t name ≡ some slot → k < slot)
    → is_named t name k ≡ false
unfolding find
find-before t name k lt first =
    find_from-before max_files 0 t name k (omega arith) (omega arith) first
