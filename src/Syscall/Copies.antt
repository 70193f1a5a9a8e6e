-- ===== src/Syscall/Copies.antt =====
-- The copies between the kernel and user memory that a system call of interrupts.cpp makes.
use venom_os.Base.{
  ℕ, zero, suc, ◌+◌, ◌^◌, ◌==◌, ◌≡◌, ◌<◌, ◌⊎◌, Bool, true, false, ◌&&◌, ltb, leb, Option, none,
  some, refl, sym, ◌∙◌, ap, subst, arith, inl, inr, Bool-cases,
}
use venom_os.Base.Memory.{update, u64}
use venom_os.Elf.{page_down}
use venom_os.Usercopy.{page_is_user_accessible}
use venom_os.Usercopy.Range.{copy_from_user_lem, copy_to_user_lem}
use venom_os.Syscall.{
  System, Outcome, from_user, to_user, with_byte, copy_path_from, copy_user_path, with_path,
  delivered, deliver, sys_error,
}

-- The page of a byte is open to the process for writing.
abbrev pub MayWrite : System → ℕ → Type 0
MayWrite s a =
    page_is_user_accessible s.kernel.machine.tables s.kernel.table.loaded_cr3 (page_down a) true
    ≡ true

-- A call has returned, and every byte of user memory is as before or the process could write it itself.
pub record IsGuarded (s : System) (o : Outcome) : Type 0 where
  pub rax : ℕ
  pub after : System
  pub ends : o ≡ some (rax, after)
  pub kept : (a : ℕ) → (after.user a ≡ s.user a) ⊎ MayWrite s a

-- A call that leaves user memory alone.
pub IsGuarded-same : (s s' : System) (rax : ℕ) → s'.user ≡ s.user → IsGuarded s (some (rax, s'))
IsGuarded-same s s' rax same = record {
  rax = rax;
  after = s';
  ends = refl;
  kept = λ a. inl (ap (λ f. f a) same);
}

pub from_user-Ends :
    (s : System) (dst : ℕ → ℕ) (addr len : ℕ)
    → addr < 2 ^ 64
    → len < 2 ^ 64
    → (ok : Bool) × (out : ℕ → ℕ) × (from_user s dst addr len ≡ some (ok, out))
from_user-Ends s dst addr len ha hl =
    elim (copy_from_user_lem s.kernel.machine.tables s.kernel.table.loaded_cr3 s.user dst addr len 0
      ha hl) [ inl (out, e, fine, at) ↦ (true, out, e) | inr e ↦ (false, dst, e) ]

-- A copy from user memory that has ended.
abbrev pub Ends : Option (Bool × (ℕ → ℕ)) → Type 0
Ends o = (ok : Bool) × (out : ℕ → ℕ) × (o ≡ some (ok, out))

pub with_byte-Ends :
    (o : Option (Bool × (ℕ → ℕ))) (i : ℕ) (out : ℕ → ℕ) (next : (ℕ → ℕ) → Option (Bool × (ℕ → ℕ)))
    → Ends o
    → ((out' : ℕ → ℕ) → Ends (next out'))
    → Ends (with_byte o i out next)
with_byte-Ends none i out next (ok, c, e) rest = ground arith
with_byte-Ends (some (false, c)) i out next e rest = (false, out, refl)
with_byte-Ends (some (true, c)) i out next e rest = elim (Bool-cases (c 0 == 0)) [
  | inl end ↦ (ltb 0 i, update out i (c 0), rw end refl)
  | inr on ↦ let (ok, name, e') = rest (update out i (c 0)) in (ok, name, rw on e')
]

pub copy_path_from-Ends :
    (left i user_ptr : ℕ) (out : ℕ → ℕ) (s : System) → Ends (copy_path_from left i user_ptr out s)
unfolding copy_path_from
copy_path_from-Ends zero i user_ptr out s = (false, out, refl)
copy_path_from-Ends (suc left) i user_ptr out s =
    with_byte-Ends (from_user s (λ b. 0) (u64 (user_ptr + i)) 1) i out
      (λ out'. copy_path_from left (i + 1) user_ptr out' s)
      (from_user-Ends s (λ b. 0) (u64 (user_ptr + i)) 1 (omega arith) (omega arith))
      (λ out'. copy_path_from-Ends left (i + 1) user_ptr out' s)

pub copy_user_path-Ends :
    (user_ptr capacity : ℕ) (s : System) → Ends (copy_user_path user_ptr capacity s)
unfolding copy_user_path
copy_user_path-Ends user_ptr capacity s = copy_path_from-Ends capacity 0 user_ptr (λ b. 0) s

pub with_path-IsGuarded :
    (o : Option (Bool × (ℕ → ℕ))) (s : System) (next : (ℕ → ℕ) → Outcome)
    → Ends o
    → ((name : ℕ → ℕ) → IsGuarded s (next name))
    → IsGuarded s (with_path o s next)
with_path-IsGuarded none s next (ok, c, e) rest = absurd (ground arith)
with_path-IsGuarded (some (false, name)) s next e rest = IsGuarded-same s s sys_error refl
with_path-IsGuarded (some (true, name)) s next e rest = rest name

-- The bytes of an answer reach memory only where the process may write.
pub delivered_byte :
    (user_buf got : ℕ) (chunk out : ℕ → ℕ) (s : System) (a : ℕ)
    → user_buf < 2 ^ 64
    → got < 2 ^ 64
    → to_user s chunk user_buf got ≡ some (true, out)
    → (out a ≡ s.user a) ⊎ MayWrite s a
delivered_byte user_buf got chunk out s a ha hg e =
    elim (copy_to_user_lem s.kernel.machine.tables s.kernel.table.loaded_cr3 s.user chunk user_buf
      got a ha hg) [
        | inr refused ↦ absurd (ground arith)
        | inl (out', e', fine, at) ↦
            let same : out ≡ out' = ground arith in
            let here = ap (λ f. f a) same in
            elim (Bool-cases (leb user_buf a && ltb a (user_buf + got))) [
              | inr outside ↦ inl (here ∙ at ∙ (rw outside refl))
              | inl inside ↦ elim fine [
                | inl empty ↦ absurd (ground arith)
                | inr (space, all) ↦ inr (all a (ground arith) (ground arith))
              ]
            ]
      ]

pub deliver-IsGuarded :
    (user_buf got : ℕ) (chunk : ℕ → ℕ) (s : System)
    → user_buf < 2 ^ 64
    → got < 2 ^ 64
    → IsGuarded s (deliver user_buf got chunk s)
unfolding deliver
deliver-IsGuarded user_buf got chunk s ha hg = elim (Bool-cases (got == 0)) [
  | inl nothing ↦ rw nothing (IsGuarded-same s s 0 refl)
  | inr some_bytes ↦
      elim (copy_to_user_lem s.kernel.machine.tables s.kernel.table.loaded_cr3 s.user chunk user_buf
        got 0 ha hg) [
          | inr refused ↦ rw some_bytes (
              subst (λ o. IsGuarded s (delivered o got s)) (sym refused)
                (IsGuarded-same s s sys_error refl))
          | inl (out, e, fine, at) ↦ rw some_bytes (
              subst (λ o. IsGuarded s (delivered o got s)) (sym e)
                (record {
                  rax = got;
                  after = record s { user = out };
                  ends = refl;
                  kept = λ a. delivered_byte user_buf got chunk out s a ha hg e;
                }))
        ]
]
