-- ===== src/Response/Timeline/Chain.antt =====
-- Every entry that `_record` writes extends the hash chain of its event.
use flood_agent.Base.{
  All-filter_by, ℕ, ◌+◌, ◌≤◌, ◌≡◌, ◌≢◌, refl, Bool, inl, inr, Bool-cases, List, [], ◌∷◌, ◌++◌, ◌==◌,
  if◌then◌else◌, arith, Ident, All, filter_by, IsOrdered, IsOrdered-append, sort_on-IsOrdered,
}
use flood_agent.Response.Entry.{EntryBody, TimelineEntry}
use flood_agent.Response.Store.{Env, Store, list_timeline}
use native.Mathlib.Nat.{le_trans}
use flood_agent.Response.Timeline.{EntryArgs, record_entry, genesis, previous_hash_of}

-- Each entry holds the digest of its own body, and names the hash of the entry before it.
abbrev pub IsLinked : Env → Ident → List TimelineEntry → Type 0
IsLinked env previous [] = Unit
IsLinked env previous (e ∷ es) =
    (e.previous_hash ≡ previous)
    × (e.record_hash ≡ env.entry_digest e.body)
    × IsLinked env e.record_hash es

-- The hash that an entry after these would name.
abbrev pub final_hash : Ident → List TimelineEntry → Ident
final_hash previous [] = previous
final_hash previous (e ∷ es) = final_hash e.record_hash es

pub IsLinked-append :
    (env : Env) (p : Ident) (l : List TimelineEntry) (e : TimelineEntry)
    → IsLinked env p l
    → e.previous_hash ≡ final_hash p l
    → e.record_hash ≡ env.entry_digest e.body
    → IsLinked env p (l ++ e ∷ [])
IsLinked-append env p [] e h q d = (q, d, tt)
IsLinked-append env p (x ∷ l) e h q d = (h.0, h.1, IsLinked-append env x.record_hash l e h.2 q d)

-- No digest is the empty text.
abbrev pub DigestsNonempty : Env → Type 0
DigestsNonempty env = (b : EntryBody) → env.entry_digest b ≢ 0

pub previous_hash_of-final_hash :
    (env : Env) (p : Ident) (x : TimelineEntry) (l : List TimelineEntry)
    → DigestsNonempty env
    → IsLinked env p (x ∷ l)
    → previous_hash_of (x ∷ l) ≡ final_hash p (x ∷ l)
previous_hash_of-final_hash env p x [] n h = ground (arith, n x.body)
previous_hash_of-final_hash env p x (y ∷ l) n h =
    previous_hash_of-final_hash env x.record_hash y l n h.2

pub previous_hash_of-IsLinked :
    (env : Env) (l : List TimelineEntry)
    → DigestsNonempty env
    → IsLinked env genesis l
    → previous_hash_of l ≡ final_hash genesis l
previous_hash_of-IsLinked env [] n h = refl
previous_hash_of-IsLinked env (x ∷ l) n h = previous_hash_of-final_hash env genesis x l n h

pub final_hash-append :
    (p : Ident) (l : List TimelineEntry) (e : TimelineEntry)
    → final_hash p (l ++ e ∷ []) ≡ e.record_hash
final_hash-append p [] e = refl
final_hash-append p (x ∷ l) e = final_hash-append x.record_hash l e

abbrev pub in_event : Ident → TimelineEntry → Bool
in_event k e = e.event_id == k

pub filter_by-append :
    (k : Ident) (l : List TimelineEntry) (e : TimelineEntry)
    → filter_by (in_event k) (l ++ e ∷ [])
      ≡ (if in_event k e then filter_by (in_event k) l ++ e ∷ [] else filter_by (in_event k) l)
filter_by-append k [] e = refl
filter_by-append k (x ∷ l) e = ground (arith, filter_by-append k l e)

pub filter_by-IsOrdered :
    (p : TimelineEntry → Bool) (l : List TimelineEntry)
    → IsOrdered (λ e. e.created_at) l
    → IsOrdered (λ e. e.created_at) (filter_by p l)
filter_by-IsOrdered p [] h = tt
filter_by-IsOrdered p (x ∷ l) h = elim (Bool-cases (p x)) [
  | inl e ↦
      rw e (All-filter_by (λ y. x.created_at ≤ y.created_at) p l h.0, filter_by-IsOrdered p l h.1)
  | inr e ↦ rw e (filter_by-IsOrdered p l h.1)
]

-- The invariant of the ledger: the entries of every event form a chain from "GENESIS", and no
-- entry is older than one before it or younger than the present reading of the clock.
pub record IsChained (env : Env) (s : Store) : Type 0 where
  pub linked : (k : Ident) → IsLinked env genesis (filter_by (in_event k) s.timeline)
  pub ordered : IsOrdered (λ e. e.created_at) s.timeline
  pub past : All (λ e. e.created_at ≤ env.clock s.ticks) s.timeline

-- The ledger reads back in the order in which it was written.
pub list_timeline-IsChained :
    (env : Env) (k : Ident) (s : Store)
    → IsChained env s
    → list_timeline k s.timeline ≡ filter_by (in_event k) s.timeline
list_timeline-IsChained env k s h =
    sort_on-IsOrdered (λ e. e.created_at) (filter_by (in_event k) s.timeline)
      (filter_by-IsOrdered (in_event k) s.timeline h.ordered)

abbrev pub ClockMonotone : Env → Type 0
ClockMonotone env = (m n : ℕ) → m ≤ n → env.clock m ≤ env.clock n

later_past :
    (env : Env) (m n : ℕ) (l : List TimelineEntry)
    → env.clock m ≤ env.clock n
    → All (λ e. e.created_at ≤ env.clock m) l
    → All (λ e. e.created_at ≤ env.clock n) l
later_past env m n [] c h = tt
later_past env m n (e ∷ l) c h = (le_trans h.0 c, later_past env m n l c h.1)

All-append {κ} :
    (P : TimelineEntry → Type κ) (l : List TimelineEntry) (e : TimelineEntry)
    → All P l
    → P e
    → All P (l ++ e ∷ [])
All-append P [] e h p = (p, tt)
All-append P (x ∷ l) e h p = (h.0, All-append P l e h.1 p)

-- The clock may be read at any time.
pub tick-IsChained :
    (env : Env) (s t : Store)
    → ClockMonotone env
    → IsChained env s
    → t.timeline ≡ s.timeline
    → s.ticks ≤ t.ticks
    → IsChained env t
tick-IsChained env s t mono h same later = record {
  linked = λ k. rw same (h.linked k);
  ordered = rw same h.ordered;
  past = rw same (later_past env s.ticks t.ticks s.timeline (mono s.ticks t.ticks later) h.past);
}

link_new :
    (env : Env) (k : Ident) (l : List TimelineEntry) (e : TimelineEntry)
    → e.record_hash ≡ env.entry_digest e.body
    → (e.event_id ≡ k → e.previous_hash ≡ final_hash genesis (filter_by (in_event k) l))
    → IsLinked env genesis (filter_by (in_event k) l)
    → IsLinked env genesis (filter_by (in_event k) (l ++ e ∷ []))
link_new env k l e d previous h = elim (Bool-cases (in_event k e)) [
  | inl own ↦
      rw (filter_by-append k l e, own)
        (IsLinked-append env genesis (filter_by (in_event k) l) e h (previous (ground arith)) d)
  | inr foreign ↦ rw (filter_by-append k l e, foreign) h
]

previous_hash_of-IsChained :
    (env : Env) (j k : Ident) (s : Store)
    → DigestsNonempty env
    → IsChained env s
    → j ≡ k
    → previous_hash_of (list_timeline j s.timeline)
      ≡ final_hash genesis (filter_by (in_event k) s.timeline)
previous_hash_of-IsChained env j k s n h e =
    rw (e, list_timeline-IsChained env k s h)
      (previous_hash_of-IsLinked env (filter_by (in_event k) s.timeline) n (h.linked k))

-- `_record` keeps the invariant of the ledger.
pub record_entry-IsChained :
    (env : Env) (a : EntryArgs) (s : Store)
    → ClockMonotone env
    → DigestsNonempty env
    → IsChained env s
    → IsChained env (record_entry env a s).1
unfolding record_entry
record_entry-IsChained env a s mono n h = record {
  linked = λ k.
      link_new env k s.timeline _ refl (previous_hash_of-IsChained env a.event_id k s n h)
        (h.linked k);
  ordered = IsOrdered-append (λ e. e.created_at) s.timeline _ h.ordered h.past;
  past =
      All-append (λ e. e.created_at ≤ env.clock (s.ticks + 1)) s.timeline _
        (later_past env s.ticks (s.ticks + 1) s.timeline (mono s.ticks (s.ticks + 1) (omega arith))
          h.past)
        (mono s.ticks (s.ticks + 1) (omega arith));
}
