-- ===== src/Store/Chain.antt =====
-- The audit chain of internal/store/audit.go, and what appending leaves of it.
use worldbisect.Prelude.{
  ℕ, ◌+◌, String, ◌≡◌, refl, ap, subst, ◌⊎◌, inl, inr, Bool, true, false, Option, none, some, List,
  [], ◌∷◌, ◌++◌, ◌||◌, not, arith, ◌==◌, str_eq, eq_iff, Bool-cases, if◌then◌else◌,
}
use worldbisect.Prelude.Exec.{Result, ok, err}
use worldbisect.Model.{AuditEvent, AuditVerification}
use worldbisect.Store.Disk.{StoreError, AuditLine, event, malformed, oversized, Disk}
use worldbisect.Store.AuditLog.{
  u64, AuditCodec, audit_hash, with_text, invalid, check_hash, verify_from,
}

-- The log verifies from `previous` and `sequence` on, and ends at `end` with `entries`.
pub data Chain (codec : AuditCodec) : List AuditLine → String × ℕ → String × ℕ → Type 0 where
  empty : {at : String × ℕ} → Chain codec [] at at
  link :
      {lines : List AuditLine} {at end : String × ℕ} (e : AuditEvent)
      → e.sequence ≡ u64 (at.1 + 1)
      → e.previous_hash ≡ at.0
      → audit_hash codec e ≡ some e.hash
      → Chain codec lines (e.hash, e.sequence) end
      → Chain codec (event e ∷ lines) at end

abbrev pub verified : ℕ → Result StoreError AuditVerification
verified n = ok (record { valid = true; entries = n; error = "" })

-- When a round of the loop accepts.
accepts-inv :
    (bad : Bool) (e : AuditEvent) (sequence n : ℕ) (message : String) (o : Option String)
    (rest : Result StoreError AuditVerification)
    → (if bad then invalid sequence message else check_hash e sequence o rest) ≡ verified n
    → (bad ≡ false) × (o ≡ some e.hash) × (rest ≡ verified n)
unfolding check_hash
accepts-inv true e sequence n message o rest h = cc
accepts-inv false e sequence n message none rest h = cc
accepts-inv false e sequence n message (some expected) rest h =
    elim (Bool-cases (str_eq expected e.hash)) [
      | inl same ↦ (refl, ap some ((eq_iff expected e.hash).0 same), rw same at h)
      | inr other ↦ cc (rw other at h)
    ]

-- The loop of `VerifyAudit` accepts exactly the chains.
pub verify_from-Chain :
    (codec : AuditCodec) (lines : List AuditLine) (previous : String) (sequence n : ℕ)
    → verify_from codec lines previous sequence ≡ verified n
    → (h : String) × Chain codec lines (previous, sequence) (h, n)
unfolding verify_from
verify_from-Chain codec [] previous sequence n h =
    (previous, subst (λ k. Chain codec [] (previous, sequence) (previous, k)) (ground arith) empty)
verify_from-Chain codec (malformed m ∷ lines) previous sequence n h = cc
verify_from-Chain codec (oversized ∷ lines) previous sequence n h = cc
verify_from-Chain codec (event e ∷ lines) previous sequence n h =
    let (good, hashed, rest) =
      accepts-inv (not (e.sequence == u64 (sequence + 1)) || not (str_eq e.previous_hash previous))
        e sequence n "sequence or previous hash mismatch" (audit_hash codec e)
        (verify_from codec lines e.hash e.sequence) h in
    let (end, chain) = verify_from-Chain codec lines e.hash e.sequence n rest in
    (end, link e (ground arith) (ground (arith, eq_iff e.previous_hash previous)) hashed chain)

-- What the write of a line leaves: nothing, the line, or, where it fails, some of it.
abbrev WrittenLine : AuditLine → Disk → Result StoreError (Unit {0}) → Disk → Type 0
WrittenLine l d (ok u) t = (t.audit ≡ with_text l d.audit_whole d.audit) × (t.audit_whole ≡ true)
WrittenLine l d (err e) t =
    (t.audit ≡ d.audit)
    ⊎ ((t.audit ≡ with_text l d.audit_whole d.audit)
        ⊎ (t.audit ≡ with_text (malformed "") d.audit_whole d.audit))

-- One event more than before, in the chain.
abbrev pub IsLonger : AuditCodec → List AuditLine → ℕ → List AuditLine → Type 0
IsLonger codec before n after =
    (e : AuditEvent) × (after ≡ before ++ event e ∷ [])
    × (verify_from codec after "" 0 ≡ verified (u64 (n + 1)))

-- What `append_audit` makes of a log that verifies with `n`: one event more; or an error, and the log
-- as before, one event more, or a last line that does not decode.
abbrev pub Extends : AuditCodec → List AuditLine → ℕ → Result StoreError (Unit {0}) → Disk → Type 0
Extends codec before n (ok u) t = IsLonger codec before n t.audit × (t.audit_whole ≡ true)
Extends codec before n (err e) t =
    (t.audit ≡ before) ⊎ (IsLonger codec before n t.audit ⊎ (t.audit ≡ before ++ malformed "" ∷ []))

-- The end that `lastAudit` reads, if it does.
abbrev ReadLast : Disk → String × ℕ → Result StoreError (String × ℕ) → Disk → Type 0
ReadLast d last r t =
    (faults : List Bool) × (t ≡ record d { faults = faults })
    × ((l : String × ℕ) → r ≡ ok l → l ≡ last)
