-- ===== src/Status.antt =====
-- status/status.go: the status of a ticket and its text and JSON forms.
pub mod Codec
pub mod Texts
use Prim.Native.Char.{code}
use mathlib.Core.Option
use text.Mathlib.TextLemmas.{cons-eq-cons}
use lymbo.Base.{
  ℕ, String, ◌≡◌, refl, ◌↔◌, ◌⊎◌, Bool, ◌||◌, Option, none, some, arith, ◌==◌, eq_iff, nat_eq,
  if◌then◌else◌,
}
use lymbo.Errors.{Result, ok, err, status_unknown, invalid_json, ◌>>=◌}

-- A struct of one unexported field: outside the package only the four values below and the zero
-- value, with the empty slug, can be made.
pub record Status : Type 0 where
  pub slug : String

abbrev pub pending : Status
pending = record { slug = "pending" }

abbrev pub done : Status
done = record { slug = "done" }

abbrev pub failed : Status
failed = record { slug = "failed" }

abbrev pub cancelled : Status
cancelled = record { slug = "cancelled" }

-- s == t on the structs.
abbrev pub is : Status → Status → Bool
is s t = s.slug == t.slug

-- The test by which the stores release the tickets that wait for this one.
abbrev pub is_terminal : Status → Bool
is_terminal s = is s done || is s failed || is s cancelled

-- A status that the package defines.
abbrev pub is_known : Status → Bool
is_known s = is s pending || is_terminal s

-- FromString
unfoldable pub from_string : String → Result Status
from_string s =
    if s == pending.slug
    then ok pending
    else if s == done.slug
    then ok done
    else if s == failed.slug
    then ok failed
    else if s == cancelled.slug
    then ok cancelled
    else err status_unknown

-- A closing quote after the text, as MarshalJSON prints it.
quote_end : String → String
quote_end String.[] = String.◌∷◌ "\"" String.[]
quote_end (String.◌∷◌ c s) = String.◌∷◌ c (quote_end s)

-- MarshalJSON: `"%s"`
unfoldable pub marshal_json : Status → String
unfolding quote_end
marshal_json s = String.◌∷◌ "\"" (quote_end s.slug)

-- The text before a closing quote, if the last character is one.
drop_quote : String → Option String
drop_quote String.[] = none
drop_quote (String.◌∷◌ c String.[]) = if nat_eq (code c) b'"' then some "" else none
drop_quote (String.◌∷◌ c (String.◌∷◌ d s)) = Option.map (String.◌∷◌ c) (drop_quote (String.◌∷◌ d s))

-- str[1 : len(str)-1], if the text is long enough and stands in quotes.
unquote : String → Option String
unfolding drop_quote
unquote String.[] = none
unquote (String.◌∷◌ c s) = if nat_eq (code c) b'"' then drop_quote s else none

-- UnmarshalJSON: the status that is stored through the receiver, or the error.
unfoldable pub unmarshal_json : String → Result Status
unfolding unquote
unmarshal_json text = elim (unquote text) [ none ↦ err invalid_json | some s ↦ from_string s ]
