-- ===== src/Response/Service/Append.antt =====
-- The ledger is append only: what a run of calls adds to it.
use mathlib.Core.Path.{sym}
use mathlib.Core.List.{append-nil, append_assoc}
use flood_agent.Base.{
  arith, ◌≡◌, refl, ◌∙◌, ap, List, [], ◌∷◌, ◌++◌, Ident, All, All-append, filter_by,
}
use flood_agent.Response.Entry.{TimelineEntry}
use flood_agent.Response.Store.{Env, Store, list_timeline}
use flood_agent.Response.Timeline.{EntryArgs, record_entry}
use flood_agent.Response.Timeline.Chain.{
  IsChained, ClockMonotone, DigestsNonempty, list_timeline-IsChained, in_event,
}
use flood_agent.Response.Ledger.{LedgerLaw}
use flood_agent.Response.Service.{Call, serve_all}
use flood_agent.Response.Service.Kept.{serve_all-Keeps_always}
use flood_agent.Response.Exec.{save_object}
use flood_agent.Response.Service.Audit.{serve_all-IsChained}

-- The entry carries the digest of its own body.
abbrev pub IsSealed : Env → TimelineEntry → Type 0
IsSealed env e = e.record_hash ≡ env.entry_digest e.body

-- The ledger is the given one, followed by sealed entries.
abbrev pub Appends : Env → List TimelineEntry → List TimelineEntry → Type 0
Appends env before after = (l : List TimelineEntry) × (after ≡ before ++ l) × All (IsSealed env) l

record_entry-appends :
    (env : Env) (a : EntryArgs) (s : Store)
    → (e : TimelineEntry) × ((record_entry env a s).1.timeline ≡ s.timeline ++ e ∷ [])
      × IsSealed env e
unfolding record_entry
record_entry-appends env a s = (_, refl, refl)

Appends-one :
    (env : Env) (start now later : List TimelineEntry) (e : TimelineEntry)
    → Appends env start now
    → later ≡ now ++ e ∷ []
    → IsSealed env e
    → Appends env start later
Appends-one env start now later e (l, same, fine) added sealed = (
  l ++ e ∷ [],
  added ∙ ap (λ x. x ++ e ∷ []) same ∙ append_assoc start l (e ∷ []),
  All-append (IsSealed env) l e fine sealed,
)

append_law :
    (env : Env) (start : List TimelineEntry) → LedgerLaw env (λ s. Appends env start s.timeline)
append_law env start = record {
  waits = λ s t same objects later more h. (h.0, same ∙ h.1, h.2);
  records = λ a s h.
      let (e, added, sealed) = record_entry-appends env a s in
      Appends-one env start s.timeline (record_entry env a s).1.timeline e h added sealed;
}

filter_by-joined :
    (k : Ident) (l m : List TimelineEntry)
    → filter_by (in_event k) (l ++ m) ≡ filter_by (in_event k) l ++ filter_by (in_event k) m
filter_by-joined k [] m = refl
filter_by-joined k (x ∷ l) m = ground (arith, filter_by-joined k l m)

pub serve_all-Appends :
    (env : Env) (cs : List Call) (s : Store) → Appends env s.timeline (serve_all env cs s).timeline
unfolding save_object
serve_all-Appends env cs s =
    serve_all-Keeps_always env (λ t. Appends env s.timeline t.timeline) (append_law env s.timeline)
      (λ o. record { at = λ t h. h }) cs s ([], sym (append-nil s.timeline), tt)

-- The audit ledger is append only: where the clock does not run backwards and no digest is empty,
-- from a store whose ledgers are hash chains, any sequence of calls leaves the stored ledger as it
-- was, followed by new entries that each carry the digest of their own body, and what
-- `list_timeline` reads for an event afterwards is what it read before, followed by the new entries
-- of that event.
pub serve_all-append_only :
    (env : Env) (cs : List Call) (s : Store) (k : Ident)
    → ClockMonotone env
    → DigestsNonempty env
    → IsChained env s
    → (l : List TimelineEntry) × ((serve_all env cs s).timeline ≡ s.timeline ++ l)
      × All (IsSealed env) l
      × (list_timeline k (serve_all env cs s).timeline
          ≡ list_timeline k s.timeline ++ filter_by (in_event k) l)
serve_all-append_only env cs s k mono nonempty h =
    let (l, e, fine) = serve_all-Appends env cs s in
    let after =
      list_timeline-IsChained env k (serve_all env cs s)
        (serve_all-IsChained env cs s mono nonempty h) in
    let before = list_timeline-IsChained env k s h in
    (
      l,
      e,
      fine,
      after
          ∙ ap (filter_by (in_event k)) e
          ∙ filter_by-joined k s.timeline l
          ∙ ap (λ x. x ++ filter_by (in_event k) l) (sym before),
    )
