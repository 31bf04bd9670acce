-- ===== src/Kharon/Payloads.antt =====
-- A payload that cannot be marshalled, given to Put of kharon.go in the ticket or as an option.
use lymbo.Base.{
  ◌≡◌, ◌≢◌, ℤ, ℕ, List, [], ◌∷◌, ◌++◌, Option, some, true, arith, eq_iff, inl, inr, ap, ◌∙◌, lookup,
  insert, lookup-insert,
}
use lymbo.Errors.{Error, ok, err, Result-cases}
use lymbo.Status.{pending}
use lymbo.Ticket.{Floats, Ticket}
use lymbo.Ticket.Setters.{set_payload}
use lymbo.Marshal.{Dynamic, to_default_payload_marshaller, run_payload, checked}
use lymbo.Options.{Opts, OptsOption, no_opts, to_opts, with_payload}
use lymbo.Memory.{Tickets, Store}
use lymbo.Memory
use lymbo.Kharon.{Kharon, before_update, delayed, observed_put, put}
use lymbo.Kharon.Groups.{memory_ops}

-- WithPayload of options.go, of a value.
abbrev pub payload_option : {V : Type 0} → Dynamic V → V → OptsOption
payload_option dy v = with_payload (checked (run_payload dy (to_default_payload_marshaller dy v)))

to_opts-fails :
    (opts rest : List OptsOption) (f : OptsOption) (o o' : Opts) (e : Error)
    → to_opts o opts ≡ ok o'
    → f o' ≡ err e
    → to_opts o (opts ++ f ∷ rest) ≡ err e
unfolding to_opts
to_opts-fails [] rest f o o' e made bad = ground (arith, made, bad)
to_opts-fails (opt ∷ opts) rest f o o' e made bad = elim (Result-cases (opt o)) [
  | inl (next, taken) ↦ ground (arith, taken, to_opts-fails opts rest f next o' e)
  | inr (x, refused) ↦ absurd (ground (arith, refused))
]

module _ {V : Type 0} (dy : Dynamic V) (v : V) (bytes : Option (List ℕ)) (e : Error)
    (fails : run_payload dy (to_default_payload_marshaller dy v) ≡ (bytes, some e)) where
  refused : (o : Opts) → payload_option dy v o ≡ err e
  unfolding with_payload
  refused o = ground (arith, fails)

  put_refused :
      (range : Tickets → Tickets) (fl : Floats) (now : ℤ) (t : Ticket) (opts : List OptsOption)
      (k : Kharon Store)
      → to_opts (record no_opts { keep = true; status = some pending }) opts ≡ err e
      → put (memory_ops range) fl now t opts k ≡ (k, err e)
  unfolding put
  put_refused range fl now t opts k h = ground (arith, h)

  put_stored :
      (range : Tickets → Tickets) (fl : Floats) (now : ℤ) (t : Ticket) (k : Kharon Store)
      → t.id ≢ ""
      → let (k', r) = put (memory_ops range) fl now (set_payload dy v t) [] k in
        (r ≡ ok tt)
        × (k'.store.entries
            ≡ insert t.id (record t { payload = bytes; status = pending }) k.store.entries)
  unfolding put to_opts before_update delayed observed_put set_payload Memory.put
  put_stored range fl now t k named =
      (ground (arith, eq_iff t.id "", named), ground (arith, eq_iff t.id "", named, fails))

  -- Where marshalling a value fails, a Put with the value as an option after any others that can be
  -- made fails with that error and changes nothing; but a Put of a ticket with an id to which its method WithPayload has given the
  -- value succeeds, and what is stored has what bytes came beside the error as its payload.
  pub payload_lost :
      (range : Tickets → Tickets) (fl : Floats) (now : ℤ) (t : Ticket) (opts rest : List OptsOption)
      (o : Opts) (k : Kharon Store)
      → to_opts (record no_opts { keep = true; status = some pending }) opts ≡ ok o
      → t.id ≢ ""
      → let (k', r) = put (memory_ops range) fl now (set_payload dy v t) [] k in
        (put (memory_ops range) fl now t (opts ++ payload_option dy v ∷ rest) k ≡ (k, err e))
        × (r ≡ ok tt)
        × (lookup t.id k'.store.entries ≡ some (record t { payload = bytes; status = pending }))
  payload_lost range fl now t opts rest o k made named =
      let t' = record t { payload = bytes; status = pending } in
      let (fine, same) = put_stored range fl now t k named in
      (
        put_refused range fl now t (opts ++ payload_option dy v ∷ rest) k
            (to_opts-fails opts rest (payload_option dy v) _ o e made (refused o)),
        fine,
        ap (lookup t.id) same
            ∙ ground (arith, lookup-insert t.id t.id t' k.store.entries, eq_iff t.id t.id),
      )
