-- ===== src/Ddmin/Calls.antt =====
-- The calls of the test function in a run of `DDMin` (internal/experiment/ddmin.go).
use worldbisect.Prelude.{String, ◌≡◌, List}
use worldbisect.Ddmin.{Verdict}

module _ {S E : Type 0} (test : List String → S → Verdict E × S) where
  -- Calls of the test, one after the other, lead from the second state to the first.
  pub data Calls (t : S) : S → Type 0 where
    done : Calls t t
    call : {s : S} (c : List String) → Calls t (test c s).1 → Calls t s

  pub Calls-trans : {t s u : S} → Calls t s → Calls u t → Calls u s
  Calls-trans done q = q
  Calls-trans (call c p) q = call c (Calls-trans p q)

  pub once : (c : List String) (s : S) → Calls (test c s).1 s
  once c s = call c done

  -- One of the calls from `s` to `t` was on this candidate, with this verdict.
  pub record Called (s t : S) (c : List String) (v : Verdict E) : Type 0 where
    pub at : S
    pub before : Calls at s
    pub verdict_is : (test c at).0 ≡ v
    pub since : Calls t (test c at).1

  pub Called-before :
      {s u t : S} {c : List String} {v : Verdict E} → Calls u s → Called u t c v → Called s t c v
  Called-before p q = record {
    at = q.at;
    before = Calls-trans p q.before;
    verdict_is = q.verdict_is;
    since = q.since;
  }

  pub Called-since :
      {s u t : S} {c : List String} {v : Verdict E} → Called s u c v → Calls t u → Called s t c v
  Called-since q p = record {
    at = q.at;
    before = q.before;
    verdict_is = q.verdict_is;
    since = Calls-trans q.since p;
  }
