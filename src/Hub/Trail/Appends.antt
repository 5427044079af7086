-- ===== src/Hub/Trail/Appends.antt =====
-- What `Append` and `PurgeExpired` of internal/hub/audit.go leave.
use worldbisect.Prelude.{
  ℕ, ◌+◌, ◌≤◌, ◌<◌, String, ◌≡◌, refl, sym, ap, subst, ◌⊎◌, inl, inr, Bool, true, false, none, some,
  List, [], ◌∷◌, ◌++◌, not, leb, ltb, ◌==◌, if◌then◌else◌, arith,
}
use text.Mathlib.TextPositions.{eq_refl}
use worldbisect.Prelude.Exec.{
  ◌>>=◌, ◌>>◌, Result, ok, err, Ensures, Ensures-bind, branch, pure, attempt,
}
use worldbisect.Hub.Trail.{
  AuditEvent, Entry, Segment, SegmentFile, AuditLog, Trail, TrailError, closed_log, latched,
  invalid_event, too_large, last_segment, advance, pruned, commit, store_entry, append,
  purge_expired, latch, valid_event, next_entry, starts_segment, with_current, open_segment,
  write_line, current_name, replace, with_line, empty_segment,
}
use worldbisect.Hub.Trail.Chain.{IsChain}
use worldbisect.Hub.Trail.Growth.{IsNext, fresh_file, last_segment-end, advance-end}
use worldbisect.Hub.Trail.Calls.{
  IsAt, Placed, open_segment-Created, write_line-written, starts_segment-PlacedAt,
}
use worldbisect.Hub.Trail.Intact.{
  IsIntact, HasHead, Stored, commits_next, commits_pruned, in_current, AreNamed-replace,
  AreNamed-end,
}

module _ (digest : Entry → String) (encoded : Entry → ℕ) (is_digest : String → Bool) where
  module _ (now later : ℕ) (e : Entry) (a : AuditLog) (intact : IsIntact digest encoded is_digest a)
      (next : IsNext digest encoded is_digest a.state.head_sequence a.state.head_hash e)
      (short : encoded e ≤ 4096) where
    abbrev Done : Unit {0} → AuditLog → Type 0
    Done = Stored digest encoded is_digest now later e a intact next short

    abbrev opened : Segment
    opened = record { name = e.sequence; created_at = e.time; last_sequence = 0; last_hash = "" }

    abbrev finished : Segment
    finished = record opened { last_sequence = e.sequence; last_hash = e.hash }

    abbrev Finishes : List (ℕ × SegmentFile) → Type 0
    Finishes written =
        IsChain digest encoded is_digest written (a.state.segments ++ finished ∷ [])
          a.state.anchor_sequence a.state.anchor_hash e.sequence e.hash

    -- The part of `store_entry` on the current segment.
    abbrev Stores : List Segment → Bool → ℕ → AuditLog → Type 0
    Stores segments fresh name b =
        Ensures
          (do
            f ← open_segment fresh name
            write_line name e (encoded e) f
            λ c.
                let (kept, removed) = pruned c.retention later (record a.state {
                  segments = advance segments e.sequence e.hash;
                  head_sequence = e.sequence;
                  head_hash = e.hash;
                }) in
                commit kept removed c)
          b Done

    in_new :
        (b : AuditLog)
        → IsAt a.state (some (some a.state)) a.directory.segments [] b
        → Ensures
            (do
              f ← open_segment true e.sequence
              write_line e.sequence e (encoded e) f
              λ c.
                  let (kept, removed) = pruned c.retention later (record a.state {
                    segments = advance (a.state.segments ++ opened ∷ []) e.sequence e.hash;
                    head_sequence = e.sequence;
                    head_hash = e.hash;
                  }) in
                  commit kept removed c)
            b
            Done
    in_new b i = Ensures-bind (open_segment true e.sequence) _ b Done (λ f r.
        let (blank, absent, j) =
          open_segment-Created a.state (some (some a.state)) [] e.sequence a.directory.segments b i
            f r in
        let with_file = a.directory.segments ++ (e.sequence, empty_segment) ∷ [] in
        Ensures-bind (write_line e.sequence e (encoded e) f) _ _ Done (λ u w.
          let written =
            write_line-written a.state (some (some a.state)) [] e.sequence e (encoded e) f with_file
              _ j u w in
          rw (advance-end a.state.segments opened e.sequence e.hash) (
            commits_next digest encoded is_digest now later e a intact next short
              (a.state.segments ++ finished ∷ [])
              (replace e.sequence (with_line e (encoded e) f) with_file) _ written
              (subst (λ g. Finishes (replace e.sequence (with_line e (encoded e) g) with_file))
                (sym blank)
                (fresh_file digest encoded is_digest a.directory.segments a.state.segments _ _ _ _
                  opened e (encoded e) intact.chain next refl refl absent (omega arith)))
              (AreNamed-replace digest encoded is_digest e.sequence (with_line e (encoded e) f)
                with_file (a.state.segments ++ finished ∷ [])
                (AreNamed-end digest encoded is_digest finished empty_segment a.directory.segments
                  a.state.segments absent intact.explained)))))

    store_entry-Stored : Ensures (store_entry digest encoded now later e) a Done
    unfolding store_entry
    store_entry-Stored =
        let at_start : IsAt a.state (some (some a.state)) a.directory.segments [] a = record {
          state_is = refl;
          checkpoint_is = intact.committed;
          files_are = refl;
          strays_are = intact.tidy;
        } in
        Ensures-bind (starts_segment digest encoded now (encoded e) (last_segment a.state.segments))
          _ a Done
          (λ fresh r.
            let (placed, i) =
              starts_segment-PlacedAt digest encoded a.state (some (some a.state)) [] now
                (encoded e) (last_segment a.state.segments) a.directory.segments a at_start fresh
                r in
            by_place fresh _ placed i)
      where
        by_place :
            (fresh : Bool) (b : AuditLog)
            → Placed digest encoded a.state
                (some (some a.state))
                []
                a.directory.segments
                (encoded e)
                (last_segment a.state.segments)
                fresh
            → IsAt a.state (some (some a.state)) a.directory.segments [] b
            → Stores
                (with_current digest encoded fresh e a.state.segments)
                fresh
                (current_name digest encoded (with_current digest encoded fresh e a.state.segments))
                b
        by_place true b placed i =
            let name : current_name digest encoded (a.state.segments ++ opened ∷ []) ≡ e.sequence =
              ap (λ o. elim o as (λ _. ℕ) [ none ↦ 0 | some s ↦ s.name ])
                (last_segment-end a.state.segments opened) in
            subst (λ n. Stores (a.state.segments ++ opened ∷ []) true n b) (sym name) (in_new b i)
        by_place false b (g, f, last, found, fits) i =
            let name : current_name digest encoded a.state.segments ≡ g.name =
              ap (λ o. elim o as (λ _. ℕ) [ none ↦ 0 | some s ↦ s.name ]) last in
            subst (λ n. Stores a.state.segments false n b) (sym name)
              (in_current digest encoded is_digest now later e a intact next short g f b last found
                fits i)

-- What a call of the log leaves: its error and the log as it was, or a latched fault, or no error, and
-- a log with the property.
abbrev pub Answers :
    (AuditLog → Type 0) → AuditLog → Result TrailError (Unit {0}) × AuditLog → Type 0
Answers Q a (ok u, b) = Q b
Answers Q a (err e, b) = (b ≡ a) ⊎ ((e ≡ latched) × (b.fault ≡ true))

attempt-Answers :
    (m : Trail (Unit {0})) (Q : AuditLog → Type 0) (a : AuditLog)
    → Ensures m a (λ _ b. Q b)
    → Answers Q a (attempt m latch pure a)
unfolding latch
attempt-Answers m Q a h = by_result (m a).0 refl
  where
    by_result :
        (r : Result TrailError (Unit {0})) → (m a).0 ≡ r → Answers Q a (branch r latch pure (m a).1)
    by_result (ok u) e = h u e
    by_result (err x) e = inr (refl, refl)

Answers-if :
    (c : Bool) (x : TrailError) (Q : AuditLog → Type 0) (a : AuditLog)
    (r : Result TrailError (Unit {0}) × AuditLog)
    → (c ≡ false → Answers Q a r)
    → Answers Q a (if c then (err x, a) else r)
Answers-if true x Q a r h = inl refl
Answers-if false x Q a r h = h refl

module _ (digest : Entry → String) (encoded : Entry → ℕ) (is_digest : String → Bool)
    (digests : (e : Entry) → is_digest (digest e) ≡ true) where
  next_entry-IsNext :
      (event : AuditEvent) (now : ℕ) (a : AuditLog)
      → 0 < now
      → valid_event event ≡ true
      → encoded (next_entry digest encoded event now a.state) ≤ 4096
      → IsNext digest encoded is_digest a.state.head_sequence a.state.head_hash
          (next_entry digest encoded event now a.state)
  next_entry-IsNext event now a late valid short =
      let e : Entry = next_entry digest encoded event now a.state in
      let dated : (now == 0) ≡ false = ground arith in
      let fits : leb (encoded e) 4096 ≡ true = ground arith in
      let number : (a.state.head_sequence + 1 == a.state.head_sequence + 1) ≡ true = ground arith in
      record {
        follows_on =
            rw (fits, number, eq_refl a.state.head_hash, dated, eq_refl e.hash, valid) refl;
        hashed = digests (record e { hash = "" });
      }

  -- An intact log stays intact under `append`, whatever fails. Without an error the new entry is at
  -- the head, with the next number and its hash over the old head; the old segments may have been
  -- pruned. With an error the log is as it was, or a fault is latched. The clock must not read Go's zero
  -- time, and a digest must look like one.
  pub append-Answers :
      (event : AuditEvent) (now then_ later : ℕ) (a : AuditLog)
      → IsIntact digest encoded is_digest a
      → 0 < now
      → let e = next_entry digest encoded event now a.state in
        Answers
          (HasHead digest encoded is_digest (a.state.head_sequence + 1) e.hash)
          a
          (append digest encoded event now then_ later a)
  unfolding append
  append-Answers event now then_ later a intact late =
      let e : Entry = next_entry digest encoded event now a.state in
      let Q = HasHead digest encoded is_digest (a.state.head_sequence + 1) e.hash in
      Answers-if a.is_closed closed_log Q a _ (λ _. Answers-if a.fault latched Q a _ (λ _.
        Answers-if (not (valid_event event)) invalid_event Q a _ (λ valid.
          Answers-if (ltb 4096 (encoded e)) too_large Q a _ (λ short.
            attempt-Answers (store_entry digest encoded then_ later e) Q a (
              store_entry-Stored digest encoded is_digest then_ later e a intact
                (next_entry-IsNext event now a late (ground arith) (ground arith))
                (ground arith))))))

  -- An intact log stays intact under `purge_expired`, whatever fails: without an error with the same
  -- head, and with one the log is as it was, or a fault is latched.
  pub purge_expired-Answers :
      (now : ℕ) (a : AuditLog)
      → IsIntact digest encoded is_digest a
      → Answers
          (HasHead digest encoded is_digest a.state.head_sequence a.state.head_hash)
          a
          (purge_expired now a)
  unfolding purge_expired
  purge_expired-Answers now a intact =
      let Q = HasHead digest encoded is_digest a.state.head_sequence a.state.head_hash in
      Answers-if a.is_closed closed_log Q a _ (λ _.
        Answers-if a.fault latched Q a _ (λ _. by_removed (pruned a.retention now a.state).1 refl))
    where
      by_removed :
          (removed : List ℕ)
          → (pruned a.retention now a.state).1 ≡ removed
          → Answers
              (HasHead digest encoded is_digest a.state.head_sequence a.state.head_hash)
              a
              (elim removed [
                | [] ↦ (ok tt, a)
                | name ∷ rest ↦
                    attempt (commit (pruned a.retention now a.state).0 (name ∷ rest)) latch pure a
              ])
      by_removed [] e = (intact, refl, refl)
      by_removed (name ∷ rest) e =
          attempt-Answers (commit (pruned a.retention now a.state).0 (name ∷ rest))
            (HasHead digest encoded is_digest a.state.head_sequence a.state.head_hash) a
            (subst
              (λ k.
                Ensures (commit (pruned a.retention now a.state).0 k) a (λ _ b.
                  HasHead digest encoded is_digest a.state.head_sequence a.state.head_hash b))
              e
              (commits_pruned digest encoded is_digest a.state a.state (some (some a.state))
                a.directory.segments now a
                (record {
                  state_is = refl;
                  checkpoint_is = intact.committed;
                  files_are = refl;
                  strays_are = intact.tidy;
                })
                intact.chain (ground (arith, intact.valid)) (ground (arith, intact.valid))
                (ground (arith, intact.valid)) intact.explained))
