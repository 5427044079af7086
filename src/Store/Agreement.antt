-- ===== src/Store/Agreement.antt =====
-- The last hash of an audit log of internal/store/audit.go fixes its events.
use worldbisect.Prelude.{ℕ, String, ◌≡◌, refl, sym, ap, ◌∙◌, some, List, [], ◌∷◌, arith, length}
use worldbisect.Model.{AuditEvent}
use worldbisect.Store.Disk.{AuditLine, event, malformed, oversized}
use worldbisect.Store.AuditLog.{AuditCodec, audit_hash, verify_from}
use worldbisect.Store.Chain.{Chain, empty, link, verified, verify_from-Chain}

-- Where a log ends.
abbrev pub end_hash : String → List AuditLine → String
end_hash previous [] = previous
end_hash previous (event e ∷ lines) = end_hash e.hash lines
end_hash previous (malformed m ∷ lines) = end_hash previous lines
end_hash previous (oversized ∷ lines) = end_hash previous lines

pub data Listed (e : AuditEvent) : List AuditLine → Type 0 where
  first : {lines : List AuditLine} → Listed e (event e ∷ lines)
  later : {l : AuditLine} {lines : List AuditLine} → Listed e lines → Listed e (l ∷ lines)

end_hash-Chain :
    (codec : AuditCodec) {lines : List AuditLine} {at end : String × ℕ}
    → Chain codec lines at end
    → end_hash at.0 lines ≡ end.0
end_hash-Chain codec empty = refl
end_hash-Chain codec (link e s p h c) = end_hash-Chain codec c

-- No two events of the logs that differ in more than the stored hash have the same digest.
abbrev pub CollisionFree : AuditCodec → List AuditLine → List AuditLine → Type 0
CollisionFree codec l l' =
    (e e' : AuditEvent) (h : String)
    → Listed e l
    → Listed e' l'
    → audit_hash codec e ≡ some h
    → audit_hash codec e' ≡ some h
    → record e { hash = "" } ≡ record e' { hash = "" }

Chain-fixed :
    (codec : AuditCodec) {l l' : List AuditLine} {at at' end end' : String × ℕ}
    → CollisionFree codec l l'
    → length l ≡ length l'
    → Chain codec l at end
    → Chain codec l' at' end'
    → end.0 ≡ end'.0
    → (at.0 ≡ at'.0) × (l ≡ l')
Chain-fixed codec free size empty empty same = (same, refl)
Chain-fixed codec free size empty (link e s p h c) same = absurd (omega arith)
Chain-fixed codec free size (link e s p h c) empty same = absurd (omega arith)
Chain-fixed codec free size (link e s p h c) (link e' s' p' h' c') same =
    let (hash_same, rest_same) =
      Chain-fixed codec (λ x x' k i i'. free x x' k (later i) (later i')) (omega arith) c c' same in
    let body = free e e' e'.hash first first (h ∙ ap some hash_same) h' in
    let event_same : e ≡ e' = λ i. record (body i) { hash = hash_same i } in
    (
      sym p ∙ ap (λ (x : AuditEvent). x.previous_hash) event_same ∙ p',
      λ i. event (event_same i) ∷ rest_same i,
    )

-- Two logs of the same length that verify and end with the same hash hold the same events, as their
-- lines decode, if no two events of theirs collide under the digest. Texts that decode to the same
-- event are not told apart.
pub verified_logs_agree :
    (codec : AuditCodec) (l l' : List AuditLine) (n n' : ℕ)
    → CollisionFree codec l l'
    → verify_from codec l "" 0 ≡ verified n
    → verify_from codec l' "" 0 ≡ verified n'
    → length l ≡ length l'
    → end_hash "" l ≡ end_hash "" l'
    → l ≡ l'
verified_logs_agree codec l l' n n' free v v' size same =
    let (h, c) = verify_from-Chain codec l "" 0 n v in
    let (h', c') = verify_from-Chain codec l' "" 0 n' v' in
    (Chain-fixed codec free size c c'
      (sym (end_hash-Chain codec c) ∙ same ∙ end_hash-Chain codec c')).1
