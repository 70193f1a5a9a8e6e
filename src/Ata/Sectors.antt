-- ===== src/Ata/Sectors.antt =====
-- What a transfer of ata.cpp does on a drive that answers.
use venom_os.Base.{
  ℕ, zero, suc, ◌+◌, ◌*◌, ◌^◌, ◌≤◌, ◌<◌, ◌≡◌, ◌≢◌, ◌==◌, Bool, true, false, none, ◌⊎◌, inl, inr,
  ℕ_discrete, refl, sym, ◌∙◌, ap, subst, arith,
}
use venom_os.Base.Memory.{u8}
use venom_os.Base.Copy.{copy_bytes}
use venom_os.Ata.{
  count_down, Drive, sector_size, address, wait, after_wait, should_inject_fault, read_from,
  read_sectors, put_sector, write_from, write_sectors,
}

-- Every wait ends well, and no fault is injected.
pub record IsHealthy (d : Drive) : Type 0 where
  pub answered : (n : ℕ) → d.answers n ≡ true
  pub no_fault : d.fault_countdown ≡ none

-- The sectors from `lba + sector` on hold the buffer's, `count` of them, and the others are as before.
pub record Writes (count sector lba : ℕ) (buffer : ℕ → ℕ) (d : Drive) (r : Bool × Drive)
    : Type 0 where
  pub done : r.0 ≡ true
  pub healthy : IsHealthy r.1
  pub inside :
      (i b : ℕ)
      → sector ≤ i
      → i < sector + count
      → r.1.sectors (lba + i) b ≡ u8 (buffer (i * sector_size + b))
  pub outside :
      (at : ℕ) → (at < lba + sector) ⊎ (lba + sector + count ≤ at) → r.1.sectors at ≡ d.sectors at

put_sector-same :
    (at : ℕ) (bytes : ℕ → ℕ) (d : Drive) (b : ℕ) → (put_sector at bytes d).sectors at b ≡ bytes b
put_sector-same at bytes d b = ground arith

put_sector-other :
    (at : ℕ) (bytes : ℕ → ℕ) (d : Drive) (k : ℕ)
    → k ≢ at
    → (put_sector at bytes d).sectors k ≡ d.sectors k
put_sector-other at bytes d k ne = ground arith

abbrev pub waited : Drive → Drive
waited d = record d { waits = d.waits + 1 }

waited-IsHealthy : (d : Drive) → IsHealthy d → IsHealthy (waited d)
waited-IsHealthy d h = record { answered = h.answered; no_fault = h.no_fault }

after_wait-good :
    {A : Type 0} (d : Drive) (good bad : Drive → A)
    → IsHealthy d
    → after_wait (wait d) good bad ≡ good (waited d)
after_wait-good d good bad h = ap (λ b. after_wait (b, waited d) good bad) (h.answered d.waits)

weaken :
    (left sector lba at : ℕ)
    → (at < lba + sector) ⊎ (lba + sector + suc left ≤ at)
    → (at < lba + (sector + 1)) ⊎ (lba + (sector + 1) + left ≤ at)
weaken left sector lba at (inl p) = inl (omega arith)
weaken left sector lba at (inr p) = inr (omega arith)

apart :
    (left sector lba at : ℕ)
    → address lba ≡ lba
    → (at < lba + sector) ⊎ (lba + sector + suc left ≤ at)
    → at ≢ address lba + sector
apart left sector lba at a (inl p) e = omega arith
apart left sector lba at a (inr p) e = omega arith

write_from-Writes :
    (left sector lba : ℕ) (buffer : ℕ → ℕ) (d : Drive)
    → lba + sector + left ≤ 2 ^ 28
    → IsHealthy d
    → Writes left sector lba buffer d (write_from left sector lba buffer d)
unfolding write_from
write_from-Writes zero sector lba buffer d fits h = record {
  done = h.answered d.waits;
  healthy = record { answered = h.answered; no_fault = h.no_fault };
  inside = λ i b p q. absurd (omega arith);
  outside = λ at o. refl;
}
write_from-Writes (suc left) sector lba buffer d fits h =
    let bytes = λ (i : ℕ). u8 (buffer (sector * sector_size + i)) in
    let d' = put_sector (address lba + sector) bytes (waited d) in
    let h' : IsHealthy d' = record { answered = h.answered; no_fault = h.no_fault } in
    let r = write_from-Writes left (sector + 1) lba buffer d' (omega arith) h' in
    let at_lba : address lba + sector ≡ lba + sector = omega arith in
    subst (Writes (suc left) sector lba buffer d)
      (sym (
        after_wait-good d
          (λ (x : Drive).
            write_from left (sector + 1) lba buffer (put_sector (address lba + sector) bytes x))
          (λ (x : Drive). (false, x)) h))
      (record {
        done = r.done;
        healthy = r.healthy;
        inside = λ i b p q. elim (ℕ_discrete i sector) [
          | yes same ↦
              ap (λ k. (write_from left (sector + 1) lba buffer d').1.sectors (lba + k) b) same
              ∙ ap (λ f. f b) (r.outside (lba + sector) (inl (omega arith)))
              ∙ ap (λ k. d'.sectors k b) (sym at_lba)
              ∙ put_sector-same (address lba + sector) bytes (waited d) b
              ∙ ap (λ k. u8 (buffer (k * sector_size + b))) (sym same)
          | no other ↦ r.inside i b (omega arith) (omega arith)
        ];
        outside = λ at o.
            r.outside at (weaken left sector lba at o)
            ∙ put_sector-other (address lba + sector) bytes (waited d) at
                (apart left sector lba at (omega arith) o);
      })

no_fault_injected : (d : Drive) → IsHealthy d → should_inject_fault d ≡ (false, d)
unfolding should_inject_fault
no_fault_injected d h = ap (λ c. count_down c d) h.no_fault

write_sectors-healthy :
    (lba count : ℕ) (buffer : ℕ → ℕ) (d : Drive)
    → 0 < count
    → IsHealthy d
    → write_sectors lba count buffer d ≡ write_from count 0 lba buffer (waited d)
unfolding write_sectors
write_sectors-healthy lba count buffer d pos h =
    let nz : (count == 0) ≡ false = ground arith in
    rw (nz, no_fault_injected d h)
      (after_wait-good d (write_from count 0 lba buffer) (λ (x : Drive). (false, x)) h)

-- On a healthy drive a write of whole sectors below the drive's address limit succeeds, and changes just
-- those sectors.
pub write_sectors-Writes :
    (lba count : ℕ) (buffer : ℕ → ℕ) (d : Drive)
    → lba + count ≤ 2 ^ 28
    → 0 < count
    → IsHealthy d
    → Writes count 0 lba buffer d (write_sectors lba count buffer d)
write_sectors-Writes lba count buffer d fits pos h =
    let r = write_from-Writes count 0 lba buffer (waited d) (omega arith) (waited-IsHealthy d h) in
    subst (Writes count 0 lba buffer d) (sym (write_sectors-healthy lba count buffer d pos h))
      (record { done = r.done; healthy = r.healthy; inside = r.inside; outside = r.outside })

-- On a healthy drive a read of one sector gives its bytes.
pub read_sectors-healthy :
    (lba : ℕ) (buffer : ℕ → ℕ) (d : Drive)
    → lba < 2 ^ 28
    → IsHealthy d
    → read_sectors lba 1 buffer d
      ≡ (true, copy_bytes sector_size 0 0 (d.sectors lba) buffer, waited (waited d))
unfolding read_sectors read_from
read_sectors-healthy lba buffer d fits h =
    let same : address lba + 0 ≡ lba = omega arith in
    rw (no_fault_injected d h) (
      after_wait-good d (read_from 1 0 lba buffer) (λ (x : Drive). (false, buffer, x)) h
      ∙ after_wait-good (waited d)
          (λ (x : Drive).
            (true, copy_bytes sector_size 0 0 (x.sectors (address lba + 0)) buffer, x))
          (λ (x : Drive). (false, buffer, x)) (waited-IsHealthy d h)
      ∙ ap (λ k. (true, copy_bytes sector_size 0 0 (d.sectors k) buffer, waited (waited d))) same)
