-- ===== src/Postgres/View.antt =====
-- How the two tables of store/postgres stand for the store of store/memory: the same tickets, but
-- for what only one of them keeps (ReadyAt, and the trigger's Mtime), and the same waits.
use lymbo.Base.{
  String, ◌≡◌, refl, ap, sym, ◌∙◌, List, [], ◌∷◌, ◌++◌, Option, none, some, Bool, true, false, ◌&&◌,
  ◌||◌, not, arith, ◌==◌, eq_iff, any, select, lookup, contains, IsMap, test_at, if◌then◌else◌,
}
use lymbo.Ticket.{Ticket}
use lymbo.Memory.{Store, blockers, is_pending_member}
use lymbo.Memory.Invariant.{Inv}
use lymbo.Postgres.{Row}
use lymbo.Postgres.Sql.{Table, Pairs, Db, in_group, waits_for, unblocked}

-- A row without its mtime, and a ticket as such a row.
abbrev pub forget : Row → Row
forget r = record r { columns = record r.columns { mtime = none } }

abbrev pub seen : Ticket → Row
seen t = record {
  columns = record {
    id = t.id;
    status = t.status.slug;
    runat = t.runat;
    nice = t.nice;
    type = t.type;
    ctime = t.ctime;
    mtime = none;
    attempts = t.attempts;
    payload = t.payload;
    error_reason = t.error_reason;
  };
  tube = t.tube;
  group_id = t.group_id;
}

abbrev pub forget_row : Option Row → Option Row
forget_row none = none
forget_row (some r) = some (forget r)

abbrev pub seen_row : Option Ticket → Option Row
seen_row none = none
seen_row (some t) = some (seen t)

-- Whether `f` waits for `b`.
unfoldable pub waits : String → String → Pairs → Bool
waits f b = any (λ d. d.0 == f && d.1 == b)

pub record Refines (db : Db) (s : Store) : Type 0 where
  pub inv : Inv s
  pub table_map : IsMap db.table
  pub same : (id : String) → forget_row (lookup id db.table) ≡ seen_row (lookup id s.entries)
  pub linked : (f b : String) → waits f b db.deps ≡ contains b (blockers f s.deps)
  -- The second table refers to the first one.
  pub keys : (f b : String) → waits f b db.deps ≡ true → test_at f (λ _. true) db.table ≡ true

pub waits-append :
    (f b : String) (ds es : Pairs) → waits f b (ds ++ es) ≡ (waits f b ds || waits f b es)
unfolding waits any
waits-append f b [] es = refl
waits-append f b (d ∷ ds) es = ground (arith, waits-append f b ds es)

waits_none : (f b : String) → waits f b [] ≡ false
unfolding waits any
waits_none f b = refl

waits_cons :
    (f b : String) (d : String × String) (ds : Pairs)
    → waits f b (d ∷ ds) ≡ (d.0 == f && d.1 == b || waits f b ds)
unfolding waits any
waits_cons f b d ds = refl

waits_if :
    (f b : String) (c : Bool) (d : String × String) (ds : Pairs)
    → waits f b (if c then d ∷ ds else ds)
      ≡ (if c then d.0 == f && d.1 == b || waits f b ds else waits f b ds)
unfolding waits any
waits_if f b true d ds = refl
waits_if f b false d ds = refl

same_test : (a b c : String) → a == b ≡ true → (b == c) ≡ (a == c)
same_test a b c h = rw ((eq_iff a b).0 h)

-- One row more that waits, or not.
added :
    (member is_self is_finalizer here waiting before after : Bool)
    → (here ≡ true → is_finalizer ≡ is_self)
    → before ≡ (waiting && not is_finalizer && after)
    → (if member && not is_self then waiting && here || before else before)
      ≡ (waiting && not is_finalizer && (here && member || after))
added true is_self is_finalizer true waiting before after h k = ground arith
added true is_self is_finalizer false waiting before after h k = ground arith
added false is_self is_finalizer here waiting before after h k = ground arith

-- The finalizer's rows are those of the members of the group.
pub waits-waits_for :
    (f b fid group : String) (table : Table)
    → waits f b (waits_for fid group table)
      ≡ (fid == f && not (b == fid) && any (λ e. e.0 == b && in_group group e.1) table)
unfolding waits_for any
waits-waits_for f b fid group [] = ground (arith, waits_none f b)
waits-waits_for f b fid group ((id, r) ∷ table) =
    waits_if f b _ (fid, id) (waits_for fid group table)
    ∙ added (in_group group r) (id == fid) (b == fid) (id == b) (fid == f) _ _
        (λ h. same_test id b fid h) (waits-waits_for f b fid group table)

-- One row that is kept, or not.
kept :
    (from to is_from is_to gone_from gone_to before after : Bool)
    → (is_from ≡ true → from ≡ gone_from)
    → (is_to ≡ true → to ≡ gone_to)
    → before ≡ (not gone_from && not gone_to && after)
    → (if not (from || to) then is_from && is_to || before else before)
      ≡ (not gone_from && not gone_to && (is_from && is_to || after))
kept from to true true gone_from gone_to before after h k e = ground arith
kept from to true false gone_from gone_to before after h k e = ground arith
kept from to false is_to gone_from gone_to before after h k e = ground arith

-- The waits that are left where the rows that name one of the ids are deleted.
pub waits-erase_all :
    (f b : String) (ids : List String) (deps : Pairs)
    → waits f b (select (λ d. not (contains d.0 ids || contains d.1 ids)) deps)
      ≡ (not (contains f ids) && not (contains b ids) && waits f b deps)
unfolding select
waits-erase_all f b ids [] = ground (arith, waits_none f b)
waits-erase_all f b ids (d ∷ deps) =
    waits_if f b _ d (select (λ d. not (contains d.0 ids || contains d.1 ids)) deps)
    ∙ kept (contains d.0 ids) (contains d.1 ids) (d.0 == f) (d.1 == b) (contains f ids)
        (contains b ids) _ (waits f b deps) (λ h. ap (λ x. contains x ids) ((eq_iff d.0 f).0 h))
        (λ h. ap (λ x. contains x ids) ((eq_iff d.1 b).0 h)) (waits-erase_all f b ids deps)
    ∙ sym (ap (λ w. not (contains f ids) && not (contains b ids) && w) (waits_cons f b d deps))

-- The waits that are left where nobody waits for one ticket any more.
pub waits-unblocked :
    (f b id : String) (deps : Pairs)
    → waits f b (unblocked id deps) ≡ (not (id == b) && waits f b deps)
unfolding unblocked select
waits-unblocked f b id [] = ground (arith, waits_none f b)
waits-unblocked f b id (d ∷ deps) =
    waits_if f b _ d (select (λ e. not (e.1 == id)) deps)
    ∙ ground (
      arith,
      waits_cons f b d deps,
      waits-unblocked f b id deps,
      eq_iff d.1 id,
      eq_iff d.1 b,
      eq_iff id b,
    )

-- A pending member of a group is one on both sides.
pub in_group-member :
    (group b : String) (db : Db) (s : Store)
    → Refines db s
    → test_at b (in_group group) db.table ≡ test_at b (is_pending_member group) s.entries
unfolding in_group is_pending_member
in_group-member group b db s v = ground (arith, v.same b)
