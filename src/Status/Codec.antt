-- ===== src/Status/Codec.antt =====
-- Round trips of status/status.go.
use Prim.Native.Char.{Char, code}
use text.Mathlib.TextEquality.{Char-path}
use mathlib.Core.Option
use mathlib.Core.Option.{none-ne-some}
use mathlib.Core.Path.{ap₂}
use lymbo.Base.{
  String, ◌≡◌, refl, ◌↔◌, true, Option, none, some, arith, eq_iff, nat_eq, ap, sym, ◌∙◌, inl, inr,
  Bool-cases, some_injective,
}
use lymbo.Errors.{Result, ok, err, invalid_json}
use lymbo.Status.{
  Status, is_known, from_string, quote_end, marshal_json, drop_quote, unquote, unmarshal_json,
}

-- `from_string` gives exactly the known status of that text.
pub from_string_iff :
    (s : String) (t : Status) → (from_string s ≡ ok t) ↔ ((t.slug ≡ s) × (is_known t ≡ true))
unfolding from_string
from_string_iff s t = (there, back)
  where
    there : from_string s ≡ ok t → (t.slug ≡ s) × (is_known t ≡ true)
    there h =
        ground (arith, eq_iff s "pending", eq_iff s "done", eq_iff s "failed", eq_iff s "cancelled")

    back : (t.slug ≡ s) × (is_known t ≡ true) → from_string s ≡ ok t
    back h = ground (
      arith,
      eq_iff s "pending",
      eq_iff s "done",
      eq_iff s "failed",
      eq_iff s "cancelled",
      eq_iff t.slug "pending",
      eq_iff t.slug "done",
      eq_iff t.slug "failed",
      eq_iff t.slug "cancelled",
    )

drop_quote-quote_end : (s : String) → drop_quote (quote_end s) ≡ some s
unfolding drop_quote quote_end
drop_quote-quote_end String.[] = refl
drop_quote-quote_end (String.◌∷◌ c String.[]) = refl
drop_quote-quote_end (String.◌∷◌ c (String.◌∷◌ d s)) =
    ap (Option.map (String.◌∷◌ c)) (drop_quote-quote_end (String.◌∷◌ d s))

quote_end_one :
    (c : Char) (t : String) → drop_quote (String.◌∷◌ c "") ≡ some t → String.◌∷◌ c "" ≡ quote_end t
unfolding drop_quote quote_end
quote_end_one c t h = elim (Bool-cases (nat_eq (code c) b'"')) [
  | inl e ↦
      let p : c ≡ "\"" = Char-path c "\"" (ground arith) in
      let q : "" ≡ t = some_injective (rw e at h) in ap (λ k. String.◌∷◌ k "") p ∙ ap quote_end q
  | inr e ↦ absurd (none-ne-some _ (rw e at h))
]

quote_end_step :
    (c : Char) (s t : String) (o : Option String)
    → ((u : String) → o ≡ some u → s ≡ quote_end u)
    → Option.map (String.◌∷◌ c) o ≡ some t
    → String.◌∷◌ c s ≡ quote_end t
unfolding quote_end
quote_end_step c s t none ih h = cc
quote_end_step c s t (some u) ih h = ap (String.◌∷◌ c) (ih u refl) ∙ ap quote_end (some_injective h)

quote_end-drop_quote : (s t : String) → drop_quote s ≡ some t → s ≡ quote_end t
unfolding drop_quote
quote_end-drop_quote String.[] t h = absurd (none-ne-some _ h)
quote_end-drop_quote (String.◌∷◌ c String.[]) t h = quote_end_one c t h
quote_end-drop_quote (String.◌∷◌ c (String.◌∷◌ d s)) t h =
    quote_end_step c (String.◌∷◌ d s) t (drop_quote (String.◌∷◌ d s))
      (λ u e. quote_end-drop_quote (String.◌∷◌ d s) u e) h

unquote-marshal_json : (s : Status) → unquote (marshal_json s) ≡ some s.slug
unfolding unquote marshal_json
unquote-marshal_json s = drop_quote-quote_end s.slug

marshal_json-unquote :
    (text t : String) → unquote text ≡ some t → text ≡ marshal_json (record { slug = t })
unfolding unquote marshal_json
marshal_json-unquote String.[] t h = absurd (none-ne-some _ h)
marshal_json-unquote (String.◌∷◌ c s) t h = elim (Bool-cases (nat_eq (code c) b'"')) [
  | inl e ↦
      let p : c ≡ "\"" = Char-path c "\"" (ground arith) in
      ap₂ String.◌∷◌ p (quote_end-drop_quote s t (rw e at h))
  | inr e ↦ absurd (none-ne-some _ (rw e at h))
]

unmarshal_some :
    (text : String) (t : Status) (o : Option String)
    → unquote text ≡ o
    → elim o as (λ _. Result Status) [ none ↦ err invalid_json | some s ↦ from_string s ] ≡ ok t
    → (text ≡ marshal_json t) × (is_known t ≡ true)
unmarshal_some text t none e h = cc
unmarshal_some text t (some s) e h =
    let k = (from_string_iff s t).0 h in
    (marshal_json-unquote text s e ∙ ap (λ z. marshal_json (record { slug = z })) (sym k.0), k.1)

-- A JSON text is read as the status `t` exactly when `t` is one of the four defined statuses and
-- the text is the one that `t` is printed as.
pub unmarshal_json_iff :
    (text : String) (t : Status)
    → (unmarshal_json text ≡ ok t) ↔ ((text ≡ marshal_json t) × (is_known t ≡ true))
unfolding unmarshal_json
unmarshal_json_iff text t = (
  unmarshal_some text t (unquote text) refl,
  λ h. rw (h.0, unmarshal_json, unquote-marshal_json t) ((from_string_iff t.slug t).1 (refl, h.1)),
)
