-- ===== src/Audit/Sequence.antt =====
-- The sequence numbers of `append_event`.
use mathlib.Core.Option.{some-injective}
use roborecon.Prelude.{
  ℕ, ◌+◌, ◌<◌, ◌≤◌, true, false, ◌≡◌, refl, sym, ap, ◌⊎◌, inl, inr, Option, none, some, List, [],
  ◌∷◌, ◌++◌, arith, All, All-imp, All-append, Bool-cases,
}
use roborecon.Records.{Datetime}
use roborecon.Audit.{
  AuditEvent, AuditTables, AuditRequest, same_batch, last_sequence, batch_exists, new_event,
  append_event,
}

module _ {T : Type 0} where
  last_sequence-bound :
      (batch : Option ℕ) (es : List (AuditEvent T))
      → All
          (λ e.
            same_batch batch (AuditEvent.batch_id e) ≡ true
            → AuditEvent.sequence e ≤ last_sequence batch es)
          es
  unfolding last_sequence
  last_sequence-bound batch [] = tt
  last_sequence-bound batch (e ∷ es) = (
    head,
    All-imp
        {P = λ d.
          same_batch batch (AuditEvent.batch_id d) ≡ true
          → AuditEvent.sequence d ≤ last_sequence batch es}
        keeps es (last_sequence-bound batch es),
  )
    where
      head : same_batch batch e.batch_id ≡ true → e.sequence ≤ last_sequence batch (e ∷ es)
      head h = ground arith

      keeps :
          (d : AuditEvent T)
          → (same_batch batch d.batch_id ≡ true → d.sequence ≤ last_sequence batch es)
          → same_batch batch d.batch_id ≡ true
          → d.sequence ≤ last_sequence batch (e ∷ es)
      keeps d f h = ground (arith, f h)

  -- The sequence rises along the events of each batch.
  abbrev pub Rising : List (AuditEvent T) → Type 0
  Rising [] = Unit
  Rising (e ∷ es) =
      All (λ d. same_batch d.batch_id e.batch_id ≡ true → e.sequence < d.sequence) es × Rising es

  Rising-append :
      (es : List (AuditEvent T)) (d : AuditEvent T)
      → Rising es
      → All
          (λ e.
            same_batch d.batch_id (AuditEvent.batch_id e) ≡ true
            → AuditEvent.sequence e < d.sequence)
          es
      → Rising (es ++ d ∷ [])
  Rising-append [] d h k = (tt, tt)
  Rising-append (e ∷ es) d h k = (
    All-append (λ c. same_batch c.batch_id e.batch_id ≡ true → e.sequence < c.sequence) es (d ∷ [])
        h.0 (k.0, tt),
    Rising-append es d h.1 k.1,
  )

  -- If along the events of each batch the sequence numbers rise, then appending an event fails
  -- exactly if it names a batch that does not exist; otherwise the new event is the last one, and
  -- the sequence numbers still rise.
  pub append_event-Rising :
      (r : AuditRequest T) (now : Datetime) (db : AuditTables T)
      → Rising db.events
      → ((batch_exists db.batches r.batch_id ≡ false) × (append_event r now db ≡ none))
        ⊎ ((e : AuditEvent T) × (after : AuditTables T) × (batch_exists db.batches r.batch_id
              ≡ true)
            × (append_event r now db ≡ some (e, after))
            × (after.events ≡ db.events ++ e ∷ [])
            × Rising after.events)
  unfolding append_event new_event
  append_event-Rising r now db h = elim (Bool-cases (batch_exists db.batches r.batch_id)) [
    | inl t ↦
        let event = new_event r (last_sequence r.batch_id db.events + 1) now in
        inr (
          event,
          record db { events = db.events ++ event ∷ [] },
          t,
          rw t refl,
          refl,
          Rising-append db.events event h (
              All-imp
                {P = λ e.
                  same_batch r.batch_id (AuditEvent.batch_id e) ≡ true
                  → AuditEvent.sequence e ≤ last_sequence r.batch_id db.events}
                (λ e f s. below _ _ (f s)) db.events (last_sequence-bound r.batch_id db.events)),
        )
    | inr f ↦ inl (f, rw f refl)
  ]
    where
      below : (a b : ℕ) → a ≤ b → a < b + 1
      below a b k = omega arith

  -- the event that was appended
  pub append_event-new_event :
      (r : AuditRequest T) (now : Datetime) (db after : AuditTables T) (e : AuditEvent T)
      → append_event r now db ≡ some (e, after)
      → e ≡ new_event r (last_sequence r.batch_id db.events + 1) now
  unfolding append_event
  append_event-new_event r now db after e h =
      elim (Bool-cases (batch_exists db.batches r.batch_id)) [
        | inl t ↦ sym (ap (λ p. p.0) (some-injective _ _ (rw (append_event, t) at h)))
        | inr f ↦ let k = rw (append_event, f) at h in cc
      ]
