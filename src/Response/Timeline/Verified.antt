-- ===== src/Response/Timeline/Verified.antt =====
-- What a verified report says of the ledger: the entries form a chain, and no other entries of the
-- same number lead to the same head hash.
use flood_agent.Base.{
  ◌∙◌, ◌+◌, ◌≡◌, ◌↔◌, refl, true, some, List, [], ◌∷◌, ◌++◌, arith, Ident, Time, length, is_empty,
}
use flood_agent.Response.Entry.{TimelineEntry}
use flood_agent.Response.Store.{Env}
use flood_agent.Response.Timeline.{
  genesis, Scan, scan_entry, scan_entries, entry_issues, integrity_report, head_of,
  TimelineIntegrityIssue,
}
use flood_agent.Response.Timeline.Chain.{IsLinked, DigestsNonempty, final_hash}

is_empty-append :
    (xs ys : List TimelineIntegrityIssue)
    → is_empty (xs ++ ys) ≡ true
    → (is_empty xs ≡ true) × (is_empty ys ≡ true)
is_empty-append [] ys h = (refl, h)
is_empty-append (x ∷ xs) ys h = cc

scan_entries_clean :
    (env : Env) (l : List TimelineEntry) (scan : Scan)
    → is_empty (scan_entries env l scan).issues ≡ true
    → (is_empty scan.issues ≡ true) × IsLinked env scan.expected_previous l
unfolding scan_entries scan_entry
scan_entries_clean env [] scan h = (h, tt)
scan_entries_clean env (e ∷ es) scan h =
    let (clean, rest) = scan_entries_clean env es (scan_entry env e scan) h in
    let (before, here) =
      is_empty-append scan.issues (entry_issues env scan.expected_previous e) clean in
    (before, ground arith)

scan_entries_linked :
    (env : Env) (l : List TimelineEntry) (scan : Scan)
    → DigestsNonempty env
    → is_empty scan.issues ≡ true
    → IsLinked env scan.expected_previous l
    → (is_empty (scan_entries env l scan).issues ≡ true)
      × ((scan_entries env l scan).verified_entries ≡ scan.verified_entries + length l)
unfolding scan_entries scan_entry
scan_entries_linked env [] scan n c h = (c, omega arith)
scan_entries_linked env (e ∷ es) scan n c h =
    ground (arith, n e.body, scan_entries_linked env es (scan_entry env e scan) n)

-- Where no digest is empty, a report says that a ledger is verified exactly when its entries form a
-- hash chain from "GENESIS", and it then counts all of them as verified.
pub integrity_report-verified_iff :
    (env : Env) (k : Ident) (l : List TimelineEntry) (moment : Time)
    → DigestsNonempty env
    → ((integrity_report env k l moment).is_verified ≡ true ↔ IsLinked env genesis l)
      × ((integrity_report env k l moment).is_verified ≡ true
          → (integrity_report env k l moment).verified_entries ≡ length l)
unfolding integrity_report
integrity_report-verified_iff env k l moment n =
    ((sound, λ h. (complete h).0), λ v. (complete (sound v)).1 ∙ omega arith)
  where
    start : Scan
    start = record { expected_previous = genesis; verified_entries = 0; issues = [] }

    sound : is_empty (scan_entries env l start).issues ≡ true → IsLinked env genesis l
    sound v = (scan_entries_clean env l start v).1

    complete :
        IsLinked env genesis l
        → (is_empty (scan_entries env l start).issues ≡ true)
          × ((scan_entries env l start).verified_entries ≡ 0 + length l)
    complete h = scan_entries_linked env l start n refl h

-- No two entries at one place of two ledgers have one digest, unless they are equal.
abbrev pub NoCollision : Env → List TimelineEntry → List TimelineEntry → Type 0
NoCollision env (x ∷ l) (y ∷ m) =
    (env.entry_digest x.body ≡ env.entry_digest y.body → x.body ≡ y.body) × NoCollision env l m
NoCollision env [] m = Unit
NoCollision env (x ∷ l) [] = Unit

linked_unique :
    (env : Env) (p q : Ident) (l m : List TimelineEntry)
    → NoCollision env l m
    → IsLinked env p l
    → IsLinked env q m
    → length l ≡ length m
    → final_hash p l ≡ final_hash q m
    → (p ≡ q) × (l ≡ m)
linked_unique env p q [] [] inj h k len same = (same, refl)
linked_unique env p q [] (y ∷ m) inj h k len same = absurd (omega arith)
linked_unique env p q (x ∷ l) [] inj h k len same = absurd (omega arith)
linked_unique env p q (x ∷ l) (y ∷ m) inj h k len same =
    let (hash, rest) =
      linked_unique env x.record_hash y.record_hash l m inj.1 h.2 k.2 (omega arith) same in
    let body = inj.0 (cc) in ground arith

head_of-final_hash :
    (x : TimelineEntry) (l : List TimelineEntry) (p : Ident)
    → head_of (x ∷ l) ≡ some (final_hash p (x ∷ l))
head_of-final_hash x [] p = refl
head_of-final_hash x (y ∷ l) p = head_of-final_hash y l x.record_hash

-- Tamper evidence: where no digest is empty, and no two entries at one place of two ledgers have
-- one digest unless they are equal, two ledgers that both verify and agree on their number of
-- entries and on their head hash are equal, entry by entry.
pub integrity_report_unique :
    (env : Env) (k : Ident) (l m : List TimelineEntry) (moment : Time)
    → DigestsNonempty env
    → NoCollision env l m
    → (integrity_report env k l moment).is_verified ≡ true
    → (integrity_report env k m moment).is_verified ≡ true
    → (integrity_report env k l moment).total_entries
      ≡ (integrity_report env k m moment).total_entries
    → (integrity_report env k l moment).head_hash ≡ (integrity_report env k m moment).head_hash
    → l ≡ m
unfolding integrity_report
integrity_report_unique env k [] [] moment n inj v w len head = refl
integrity_report_unique env k [] (y ∷ m) moment n inj v w len head = absurd (omega arith)
integrity_report_unique env k (x ∷ l) [] moment n inj v w len head = absurd (omega arith)
integrity_report_unique env k (x ∷ l) (y ∷ m) moment n inj v w len head =
    (linked_unique env genesis genesis (x ∷ l) (y ∷ m) inj
      ((integrity_report-verified_iff env k (x ∷ l) moment n).0.0 v)
      ((integrity_report-verified_iff env k (y ∷ m) moment n).0.0 w) len
      (cc (head_of-final_hash x l genesis, head_of-final_hash y m genesis, head))).1
