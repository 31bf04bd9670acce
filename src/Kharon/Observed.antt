-- ===== src/Kharon/Observed.antt =====
-- What the observable store of observable.go counts.
use lymbo.Base.{
  ℕ, zero, suc, ◌+◌, String, ◌≡◌, refl, ap, ◌∙◌, ℤ, pos, add64, List, [], ◌∷◌, Option, none, some,
  Bool, true, false, ◌&&◌, arith, if◌then◌else◌, count, ==_self,
}
use lymbo.Errors.{Result, ok, err, finalizer_in_group}
use lymbo.Status.{pending}
use lymbo.Ticket.{Floats, Ticket, TransitionInfo}
use lymbo.Options.{Opts, OptsOption, to_opts, no_opts}
use lymbo.Stats.{Metric, Key, same_key, at, new_measurers, by_key_inc, Stats}
use lymbo.Stats.Counting.{counter, counter-by_key_inc}
use lymbo.Kharon.{
  StoreOps, Kharon, key_of, before_update, count_expired, observed_put, put, is_own_finalizer,
  expire_tickets,
}

-- The counter of a metric for a key.
abbrev pub counted : Key → Metric → Stats → ℤ
counted j metric st = counter metric (at new_measurers j st.by_key)

-- n times one more, in int64.
abbrev pub add_many : ℕ → ℤ → ℤ
add_many zero c = c
add_many (suc n) c = add_many n (add64 c (pos 1))

abbrev pub is_ok {ℓ} : {A : Type ℓ} → Result A → Bool
is_ok (ok _) = true
is_ok (err _) = false

abbrev pub info_key : TransitionInfo → Key
info_key info = record { type = info.type; tube = info.tube }

tally :
    (b : Bool) (n : ℕ) (x y : ℤ)
    → y ≡ (if b && true && true then add64 x (pos 1) else x)
    → add_many n y ≡ add_many ((if b then 1 else 0) + n) x
tally true n x y h =
    ap (add_many n) h ∙ ap (λ z. add_many z x) (let e : suc n ≡ 1 + n = omega arith in e)
tally false n x y h =
    ap (add_many n) h ∙ ap (λ z. add_many z x) (let e : n ≡ 0 + n = omega arith in e)

counted-count_expired :
    (j : Key) (infos : List TransitionInfo) (st : Stats)
    → counted j Metric.expire (count_expired infos st)
      ≡ add_many (count (λ i. same_key (info_key i) j) infos) (counted j Metric.expire st)
unfolding count_expired count
counted-count_expired j [] st = refl
counted-count_expired j (info ∷ infos) st =
    counted-count_expired j infos (by_key_inc (info_key info) Metric.expire st)
    ∙ tally (same_key (info_key info) j) (count (λ i. same_key (info_key i) j) infos)
        (counted j Metric.expire st)
        (counted j Metric.expire (by_key_inc (info_key info) Metric.expire st))
        (counter-by_key_inc (info_key info) j Metric.expire Metric.expire st)

module _ {S : Type 0} (ops : StoreOps S) where
  -- An expiration that succeeds counts each reported ticket once, for its type and tube, and one that
  -- fails counts nothing; the result is that of the store.
  pub expire_tickets_counts :
      (limit now : ℤ) (k : Kharon S) (j : Key)
      → let (s, r) = ops.expire_tickets limit now k.store in
        let (k', r') = expire_tickets ops limit now k in
        (r' ≡ r)
        × (k'.store ≡ s)
        × (counted j Metric.expire k'.stats
            ≡ add_many
                (elim r [ err _ ↦ 0 | ok infos ↦ count (λ i. same_key (info_key i) j) infos ])
                (counted j Metric.expire k.stats))
  unfolding expire_tickets
  expire_tickets_counts limit now k j = by_result (ops.expire_tickets limit now k.store)
    where
      by_result :
          (p : S × Result (List TransitionInfo))
          → let (k', r') = elim p.1 as (λ _. Kharon S × Result (List TransitionInfo)) [
            | err e ↦ (record k { store = p.0 }, err e)
            | ok infos ↦ (record k { store = p.0; stats = count_expired infos k.stats }, ok infos)
          ] in
            (r' ≡ p.1)
            × (k'.store ≡ p.0)
            × (counted j Metric.expire k'.stats
                ≡ add_many
                    (elim p.1 [ err _ ↦ 0 | ok infos ↦ count (λ i. same_key (info_key i) j) infos ])
                    (counted j Metric.expire k.stats))
      by_result (s, err e) = (refl, refl, refl)
      by_result (s, ok infos) = (refl, refl, counted-count_expired j infos k.stats)

  observed_put-result :
      (t : Ticket) (write : S → S × Result (Unit {0})) (k : Kharon S) (j : Key)
      → let (s, r) = write k.store in
        let (k', r') = observed_put t write k in
        (r' ≡ r)
        × (k'.store ≡ s)
        × (counted j Metric.add k'.stats ≡ (
            if is_ok r && same_key (key_of t) j
            then add64 (counted j Metric.add k.stats) (pos 1)
            else counted j Metric.add k.stats))
  unfolding observed_put
  observed_put-result t write k j = by_result (write k.store)
    where
      by_result :
          (p : S × Result (Unit {0}))
          → let (k', r') = elim p.1 as (λ _. Kharon S × Result (Unit {0})) [
            | err e ↦ (record k { store = p.0 }, err e)
            | ok u ↦
                (record k { store = p.0; stats = by_key_inc (key_of t) Metric.add k.stats }, ok u)
          ] in
            (r' ≡ p.1)
            × (k'.store ≡ p.0)
            × (counted j Metric.add k'.stats ≡ (
                if is_ok p.1 && same_key (key_of t) j
                then add64 (counted j Metric.add k.stats) (pos 1)
                else counted j Metric.add k.stats))
      by_result (s, err e) = (refl, refl, refl)
      by_result (s, ok u) = (
        refl,
        refl,
        ground (arith, counter-by_key_inc (key_of t) j Metric.add Metric.add k.stats),
      )

  put-observed_put :
      (fl : Floats) (now : ℤ) (t t' : Ticket) (opts : List OptsOption) (o : Opts) (k : Kharon S)
      → to_opts (record no_opts { keep = true; status = some pending }) opts ≡ ok o
      → is_own_finalizer o ≡ false
      → before_update fl now o t ≡ ok t'
      → put ops fl now t opts k ≡ elim o.after_group as (λ _. Kharon S × Result (Unit {0})) [
        | some group ↦ observed_put t' (ops.put_after_group t' group) k
        | none ↦ observed_put t' (ops.put t') k
      ]
  unfolding put
  put-observed_put fl now t t' opts o k made other prepared = ground arith

  -- Put of a ticket, where the options can be made and do not make it a finalizer of its own group:
  -- the ticket that beforeUpdate makes goes to the store, by PutAfterGroup if the options name a group
  -- to wait for and by Put if they do not, and the result is the store's. A success is counted once,
  -- for the type and the tube of that ticket; an error is not.
  pub put_lem :
      (fl : Floats) (now : ℤ) (t t' : Ticket) (opts : List OptsOption) (o : Opts) (k : Kharon S)
      (j : Key)
      → to_opts (record no_opts { keep = true; status = some pending }) opts ≡ ok o
      → is_own_finalizer o ≡ false
      → before_update fl now o t ≡ ok t'
      → let (s, r) = elim o.after_group as (λ _. S × Result (Unit {0})) [
        | some group ↦ ops.put_after_group t' group k.store
        | none ↦ ops.put t' k.store
      ] in
        let (k', r') = put ops fl now t opts k in
        (r' ≡ r)
        × (k'.store ≡ s)
        × (counted j Metric.add k'.stats ≡ (
            if is_ok r && same_key (key_of t') j
            then add64 (counted j Metric.add k.stats) (pos 1)
            else counted j Metric.add k.stats))
  put_lem fl now t t' opts o k j made other prepared =
      rw (put-observed_put fl now t t' opts o k made other prepared) (by_group o.after_group)
    where
      by_group :
          (g : Option String)
          → let (s, r) = elim g as (λ _. S × Result (Unit {0})) [
            | some group ↦ ops.put_after_group t' group k.store
            | none ↦ ops.put t' k.store
          ] in
            let (k', r') = elim g as (λ _. Kharon S × Result (Unit {0})) [
              | some group ↦ observed_put t' (ops.put_after_group t' group) k
              | none ↦ observed_put t' (ops.put t') k
            ] in
            (r' ≡ r)
            × (k'.store ≡ s)
            × (counted j Metric.add k'.stats ≡ (
                if is_ok r && same_key (key_of t') j
                then add64 (counted j Metric.add k.stats) (pos 1)
                else counted j Metric.add k.stats))
      by_group (some group) = observed_put-result t' (ops.put_after_group t' group) k j
      by_group none = observed_put-result t' (ops.put t') k j

  -- Put changes nothing where the options name the same group to join and to wait for, and reports
  -- ErrFinalizerInGroup.
  pub put_refused :
      (fl : Floats) (now : ℤ) (t : Ticket) (opts : List OptsOption) (o : Opts) (k : Kharon S)
      (group : String)
      → to_opts (record no_opts { keep = true; status = some pending }) opts ≡ ok o
      → o.after_group ≡ some group
      → o.group_id ≡ some group
      → put ops fl now t opts k ≡ (k, err finalizer_in_group)
  unfolding put is_own_finalizer
  put_refused fl now t opts o k group made waits joins = ground (arith, ==_self group)
