-- ===== src/Status/Texts.antt =====
-- The statuses of status/status.go and the JSON texts that are read as one, as types.
use std.Equiv.{IsEquiv, iso_to_equiv}
use mathlib.Core.HLevel.{Σ_prop_path}
use text.Mathlib.TextEquality.{IsScalar-prop}
use lymbo.Base.{String, ◌≡◌, refl, sym, true}
use lymbo.Errors.{Result, ok}
use lymbo.Status.{Status, is_known, marshal_json, unmarshal_json}
use lymbo.Status.Codec.{unmarshal_json_iff}

-- The four statuses that have a name.
abbrev pub Known : Type 0
Known = (s : Status) × (is_known s ≡ true)

-- The texts that UnmarshalJSON accepts, with the status that it makes of them.
abbrev pub Readable : Type 0
Readable = (p : String × Status) × (unmarshal_json p.0 ≡ ok p.1)

-- MarshalJSON
unfoldable pub print : Known → Readable
print (s, known) = ((marshal_json s, s), (unmarshal_json_iff (marshal_json s) s).1 (refl, known))

read : Readable → Known
read (p, e) = (p.1, ((unmarshal_json_iff p.0 p.1).0 e).1)

Result-set : IsSet (Result Status)
Result-set = hlevel IsScalar-prop

read-print : (k : Known) → read (print k) ≡ k
unfolding read print
read-print k = Σ_prop_path (λ s. hlevel) refl

print-read : (r : Readable) → print (read r) ≡ r
unfolding read print
print-read (p, e) =
    Σ_prop_path (λ q. Result-set _ _) (λ i. (sym ((unmarshal_json_iff p.0 p.1).0 e).0 i, p.1))

-- Printing is an equivalence of types between the four statuses that have a name and the JSON texts
-- that are read as a status: each such text is printed from exactly one status, the one that it is
-- read as.
pub print-IsEquiv : IsEquiv print
print-IsEquiv =
    (iso_to_equiv (record { fun = print; inv = read; rinv = print-read; linv = read-print })).1
