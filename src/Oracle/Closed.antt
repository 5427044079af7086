-- ===== src/Oracle/Closed.antt =====
-- `Evaluate` of internal/oracle/oracle.go lets a run pass for a stated reason only.
use text.Mathlib.Text.{starts_with}
use worldbisect.Prelude.{
  ℤ, String, ◌≡◌, refl, Bool, true, false, Option, none, some, ◌||◌, str_eq, eq_iff, same_int,
  Bool-cases, inl, inr, arith, ap,
}
use worldbisect.Prelude.Exec.{Result, ok, err}
use worldbisect.Model.{Oracle, ProcessResult}
use worldbisect.Oracle.{
  Host, safe_workspace_path, exit_result, match_result, digest_result, file_result, evaluate,
}

-- Why a run passed. A digest is compared only for a file whose cleaned relative path does not lead
-- out of the workspace.
pub data Justified (host : Host) (spec : Oracle) (result : ProcessResult) (workspace : String)
    : Type 0 where
  exited :
      (expected : ℤ)
      → spec.kind ≡ "exit"
      → spec.expected_exit_code ≡ some expected
      → result.timed_out ≡ false
      → same_int result.exit_code expected ≡ true
      → Justified host spec result workspace
  timed : spec.kind ≡ "timeout" → result.timed_out ≡ true → Justified host spec result workspace
  printed :
      spec.kind ≡ "stdout_regex"
      → host.match spec.pattern result.stdout ≡ ok true
      → Justified host spec result workspace
  complained :
      spec.kind ≡ "stderr_regex"
      → host.match spec.pattern result.stderr ≡ ok true
      → Justified host spec result workspace
  digested :
      spec.kind ≡ "file_digest"
      → host.is_absolute spec.file ≡ false
      → str_eq (host.clean spec.file) ".." ≡ false
      → starts_with (host.clean spec.file) "../" ≡ false
      → host.file_digest (host.join workspace (host.clean spec.file)) ≡ ok spec.digest
      → Justified host spec result workspace

module _ (host : Host) where
  exit_result-passed :
      (o : Option ℤ) (result : ProcessResult)
      → (exit_result host o result).passed ≡ true
      → (expected : ℤ) × (o ≡ some expected)
        × (result.timed_out ≡ false)
        × (same_int result.exit_code expected ≡ true)
  unfolding exit_result
  exit_result-passed none result h = cc
  exit_result-passed (some n) result h = (n, refl, ground arith, ground arith)

  match_result-passed :
      (r : Result String Bool) (detail : String)
      → (match_result host r detail).passed ≡ true
      → r ≡ ok true
  unfolding match_result
  match_result-passed (err e) detail h = cc
  match_result-passed (ok b) detail h = ap ok h

  digest_result-passed :
      (spec : Oracle) (r : Result String String)
      → (digest_result host spec r).passed ≡ true
      → r ≡ ok spec.digest
  unfolding digest_result
  digest_result-passed spec (err e) h = cc
  digest_result-passed spec (ok actual) h = ap ok ((eq_iff actual spec.digest).0 h)

  file_result-Justified :
      (spec : Oracle) (result : ProcessResult) (workspace : String)
      → spec.kind ≡ "file_digest"
      → (file_result host spec (safe_workspace_path host workspace spec.file)).passed ≡ true
      → Justified host spec result workspace
  unfolding file_result safe_workspace_path
  file_result-Justified spec result workspace k h =
      let clean = host.clean spec.file in
      elim (Bool-cases (str_eq spec.file "" || host.is_absolute spec.file)) [
        | inl p ↦ cc (rw p at h)
        | inr p ↦
            elim (Bool-cases (str_eq clean "." || str_eq clean ".." || starts_with clean "../")) [
              | inl q ↦ cc (rw (p, q) at h)
              | inr q ↦
                  digested k (ground arith) (ground arith) (ground arith)
                    (digest_result-passed spec _ (rw (p, q) at h))
            ]
      ]

-- A run passes only for a reason of the oracle's own kind: the expected exit code without a timeout,
-- a timeout, a pattern that matches the right output, or a file inside the workspace with the given
-- digest. Errors and unknown kinds do not pass.
pub evaluate-Justified :
    (host : Host) (spec : Oracle) (result : ProcessResult) (workspace : String)
    → (evaluate host spec result workspace).passed ≡ true
    → Justified host spec result workspace
unfolding evaluate
evaluate-Justified host spec result workspace h = elim (Bool-cases (str_eq spec.kind "exit")) [
  | inl p ↦
      let (n, o, t, s) = exit_result-passed host spec.expected_exit_code result (rw p at h) in
      exited n ((eq_iff spec.kind "exit").0 p) o t s
  | inr p ↦ elim (Bool-cases (str_eq spec.kind "timeout")) [
    | inl q ↦ timed ((eq_iff spec.kind "timeout").0 q) (rw (p, q) at h)
    | inr q ↦ elim (Bool-cases (str_eq spec.kind "stdout_regex")) [
      | inl r ↦
          printed ((eq_iff spec.kind "stdout_regex").0 r)
            (match_result-passed host _ "stdout regex evaluated" (rw (p, q, r) at h))
      | inr r ↦ elim (Bool-cases (str_eq spec.kind "stderr_regex")) [
        | inl s ↦
            complained ((eq_iff spec.kind "stderr_regex").0 s)
              (match_result-passed host _ "stderr regex evaluated" (rw (p, q, r, s) at h))
        | inr s ↦ elim (Bool-cases (str_eq spec.kind "file_digest")) [
          | inl t ↦
              file_result-Justified host spec result workspace
                ((eq_iff spec.kind "file_digest").0 t) (rw (p, q, r, s, t) at h)
          | inr t ↦ cc (rw (p, q, r, s, t) at h)
        ]
      ]
    ]
  ]
]
