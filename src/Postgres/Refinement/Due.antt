-- ===== src/Postgres/Refinement/Due.antt =====
-- The candidates of a poll of store/postgres beside the due tickets of store/memory.
use mathlib.Core.List.{Mem}
use mathlib.Core.Logic.{∥∥₁_elim}
use lymbo.Base.{
  String, ◌≡◌, refl, ◌∙◌, List, [], ◌∷◌, map, some, Bool, true, false, ◌||◌, not, arith, eq_iff,
  nat_eq, any, all, all-perm, all-take, select, length, lookup, contains, Option-cases, inl, inr,
  pos_part, test_at, Perm,
}
use lymbo.Base.Members.{lookup-Memᴰ, all_of_mem}
use lymbo.Ticket.{Ticket, PollRequest}
use lymbo.Memory.{Store, blockers}
use lymbo.Memory.Polling.{is_due}
use lymbo.Postgres.{Row, PollArgs}
use lymbo.Postgres.Sql.{Table, Pairs, Db, Server, taken}
use lymbo.Postgres.Sql.Poll.{blocked, is_candidate, candidates, sooner}
use lymbo.Postgres.View.{waits, Refines}

blocked_of_waits : (f b : String) (deps : Pairs) → waits f b deps ≡ true → blocked f deps ≡ true
unfolding waits blocked any
blocked_of_waits f b [] h = ground (arith, h)
blocked_of_waits f b (d ∷ deps) h = ground (arith, blocked_of_waits f b deps)

not_blocked :
    (f : String) (deps : Pairs) → ((b : String) → waits f b deps ≡ false) → blocked f deps ≡ false
unfolding waits blocked any
not_blocked f [] h = refl
not_blocked f (d ∷ deps) h =
    ground (arith, h d.1, eq_iff d.1 d.1, not_blocked f deps (λ b. ground (arith, h b)))

blocked_iff :
    (f : String) (deps : Pairs) (set : List String)
    → ((b : String) → waits f b deps ≡ contains b set)
    → not (blocked f deps) ≡ nat_eq (length set) 0
unfolding contains
blocked_iff f deps [] h = ground (arith, not_blocked f deps h)
blocked_iff f deps (x ∷ set) h = ground (arith, h x, eq_iff x x, blocked_of_waits f x deps)

-- In tables that stand for a store, a row is a candidate exactly if its ticket is due.
pub is_candidate-is_due :
    (req : PollRequest) (db : Db) (s : Store) (id : String) (r : Row) (t : Ticket)
    → Refines db s
    → lookup id db.table ≡ some r
    → lookup id s.entries ≡ some t
    → is_candidate req.now req.request_tubes db.deps id r ≡ is_due req s t
unfolding is_candidate
is_candidate-is_due req db s id r t v h k = ground (
  arith,
  v.same id,
  v.inv.sound id t k,
  blocked_iff id db.deps (blockers id s.deps) (λ b. v.linked id b),
)

-- Whether the store holds a due ticket under the id of a row.
unfoldable pub id_due : PollRequest → Store → String → Bool
id_due req s id = test_at id (is_due req s) s.entries

all_selected {ℓ} :
    {A : Type ℓ} (c q : A → Bool) (xs : List A)
    → all (λ x. not (c x) || q x) xs ≡ true
    → all q (select c xs) ≡ true
unfolding all select
all_selected c q [] h = refl
all_selected c q (x ∷ xs) h = ground (arith, all_selected c q xs)

all-map {ℓ κ} :
    {A : Type ℓ} {B : Type κ} (q : B → Bool) (f : A → B) (xs : List A)
    → all q (map f xs) ≡ all (λ x. q (f x)) xs
unfolding all
all-map q f [] = refl
all-map q f (x ∷ xs) = ground (arith, all-map q f xs)

module _ (sv : Server) (req : PollRequest) (a : PollArgs) (db : Db) (s : Store) (v : Refines db s)
    (scan : (t : Table) → Perm (sv.scan t) t)
    (order : (rs : List Row) → Perm (sv.sort_rows sooner rs) rs) (now : a.now ≡ req.now)
    (tubes : a.tubes ≡ req.request_tubes) where
  abbrev cand : String × Row → Bool
  cand e = is_candidate a.now a.tubes db.deps e.0 e.1

  entry_due :
      (id : String) (r : Row) (t : Ticket)
      → lookup id db.table ≡ some r
      → lookup id s.entries ≡ some t
      → (not (is_candidate a.now a.tubes db.deps id r) || id_due req s r.columns.id) ≡ true
  unfolding id_due
  entry_due id r t h k =
      ground (
        arith,
        now,
        tubes,
        is_candidate-is_due req db s id r t v h k,
        v.same id,
        v.inv.sound id t k,
      )

  entry : (e : String × Row) → Mem e db.table → (not (cand e) || id_due req s e.1.columns.id) ≡ true
  entry e m = ∥∥₁_elim m (hlevel) (λ d.
      let at : lookup e.0 db.table ≡ some e.1 = lookup-Memᴰ v.table_map d in
      elim (Option-cases (lookup e.0 s.entries)) [
        | inl gone ↦ absurd (ground (arith, v.same e.0, at, gone))
        | inr (t, k) ↦ entry_due e.0 e.1 t at k
      ])

  -- Every candidate is the row of a due ticket.
  pub candidates_due : all (λ r. id_due req s r.columns.id) (candidates sv a db) ≡ true
  unfolding candidates taken
  candidates_due =
      let due : Row → Bool = λ r. id_due req s r.columns.id in
      let rows = map (λ (e : String × Row). e.1) (select cand (sv.scan db.table)) in
      let all_due : all due rows ≡ true =
        all-map due (λ e. e.1) (select cand (sv.scan db.table))
        ∙ all_selected cand (λ e. due e.1) (sv.scan db.table)
            (all-perm (λ e. not (cand e) || due e.1) (scan db.table)
              ∙ all_of_mem (λ e. not (cand e) || due e.1) db.table entry) in
      all-take due (pos_part a.limit) (sv.sort_rows sooner rows)
        (all-perm due (order rows) ∙ all_due)
