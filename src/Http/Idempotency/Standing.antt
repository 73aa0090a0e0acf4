-- ===== src/Http/Idempotency/Standing.antt =====
-- What keeps a row of the idempotency table in its place.
use flood_agent.Base.{
  ◌≤◌, ◌≡◌, inl, inr, refl, arith, true, false, not, Bool-cases, some, [], ◌∷◌, ◌++◌, ltb, Ident,
  Time, Text, text_eq_sound, find, find-filter_by, find-append,
}
use flood_agent.Http.Idempotency.Records.{
  IdempotencyRecord, Row, Table, in_slot, purge, is_open, overwrite, release_idempotency_record,
}

-- The row that is found in the record's slot holds the record.
abbrev pub Holds : IdempotencyRecord → Table → Type 0
Holds r t = (x : Row) × (find (in_slot r.scope r.idempotency_key) t ≡ some x) × (x.payload ≡ r)

-- The record's row is not one that a write for the slot and the hash meets.
abbrev pub Closed : Text → Text → Ident → IdempotencyRecord → Type 0
Closed scope key hash r = is_open scope key hash r ≡ false

-- A row that has not expired survives a purge.
pub purge-Holds :
    (now : Time) (r : IdempotencyRecord) (t : Table)
    → now ≤ r.expires_at
    → Holds r t
    → Holds r (purge now t)
unfolding purge
purge-Holds now r t h (x, found, same) =
    (x, find-filter_by _ (λ y. not (ltb y.expires_at now)) t x found (ground arith), same)

pub append-Holds : (r : IdempotencyRecord) (t u : Table) → Holds r t → Holds r (t ++ u)
append-Holds r t u (x, found, same) = (x, find-append _ t u x found, same)

pub release-Holds :
    (scope key : Text) (hash : Ident) (r : IdempotencyRecord) (t : Table)
    → Closed scope key hash r
    → Holds r t
    → Holds r (release_idempotency_record scope key hash t)
unfolding release_idempotency_record
release-Holds scope key hash r t closed (x, found, same) = (
  x,
  find-filter_by _ (λ y. not (is_open scope key hash y.payload)) t x found (rw (same, closed) refl),
  same,
)

-- A row that is written over stays in its slot.
overwrite-slot :
    (w : IdempotencyRecord) (scope key : Text) (y : Row)
    → is_open w.scope w.idempotency_key w.request_hash y.payload ≡ true
    → in_slot scope key (record y { payload = w }) ≡ in_slot scope key y
overwrite-slot w scope key y h =
    ground (arith, text_eq_sound y.scope w.scope, text_eq_sound y.idempotency_key w.idempotency_key)

find-overwrite :
    (w : IdempotencyRecord) (scope key : Text) (t : Table) (x : Row)
    → find (in_slot scope key) t ≡ some x
    → is_open w.scope w.idempotency_key w.request_hash x.payload ≡ false
    → find (in_slot scope key) (overwrite w t) ≡ some x
find-overwrite w scope key [] x h k = absurd (ground arith)
find-overwrite w scope key (y ∷ t) x h k =
    elim (Bool-cases (is_open w.scope w.idempotency_key w.request_hash y.payload)) [
      | inl e ↦ rw e (
          ground (
            arith,
            text_eq_sound y.scope w.scope,
            text_eq_sound y.idempotency_key w.idempotency_key,
            find-overwrite w scope key t x,
          ))
      | inr e ↦ rw e (ground (arith, find-overwrite w scope key t x))
    ]

pub overwrite-Holds :
    (w r : IdempotencyRecord) (t : Table)
    → Closed w.scope w.idempotency_key w.request_hash r
    → Holds r t
    → Holds r (overwrite w t)
overwrite-Holds w r t closed (x, found, same) =
    (x, find-overwrite w _ _ t x found (rw (same, closed) refl), same)
