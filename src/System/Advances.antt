-- ===== src/System/Advances.antt =====
-- In which direction every write moves the database.
use cloud_commander.Prelude.{
  ◌≤◌, ◌≡◌, refl, sym, ap, ◌∙◌, inl, inr, Option, none, some, List, [], ◌++◌, arith, ltb,
  Bool-cases,
}
use mathlib.Core.List.{append_assoc}
use cloud_commander.Uuid.{Uuid}
use cloud_commander.Domain.Schemas.{ResourceNodeSnapshot}
use cloud_commander.Infrastructure.Database.{NodeRow, Db}
use cloud_commander.Infrastructure.Repository.{
  find_node, is_node, upsert_row, upsert_node_projection,
}
use cloud_commander.Infrastructure.Repository.Nodes.{newest, find_node-upsert_row, find_node-other}

-- The list has got new elements at its head, and has kept the others.
abbrev pub Extends : {A : Type 0} → List A → List A → Type 0
Extends {A} xs ys = (more : List A) × (ys ≡ more ++ xs)

Extends-trans : {A : Type 0} (xs ys zs : List A) → Extends xs ys → Extends ys zs → Extends xs zs
Extends-trans xs ys zs (m, e) (n, f) = (n ++ m, f ∙ ap (λ l. n ++ l) e ∙ sym (append_assoc n m xs))

-- A row stays, and its version never falls.
abbrev pub NoOlder : {F : Type 0} → Option (NodeRow F) → Option (NodeRow F) → Type 0
NoOlder none o = Unit
NoOlder (some r) none = ⊥
NoOlder (some r) (some q) = r.snapshot.last_sequence_id ≤ q.snapshot.last_sequence_id

NoOlder-refl : {F : Type 0} (o : Option (NodeRow F)) → NoOlder o o
NoOlder-refl none = tt
NoOlder-refl (some r) = omega arith

NoOlder-trans : {F : Type 0} (a b c : Option (NodeRow F)) → NoOlder a b → NoOlder b c → NoOlder a c
NoOlder-trans none b c h k = tt
NoOlder-trans (some r) none c h k = absurd h
NoOlder-trans (some r) (some q) none h k = absurd k
NoOlder-trans (some r) (some q) (some p) h k = omega (arith, h, k)

-- The log and the alerts only grow, and no node of the read model is lost or gets older.
pub record Advances {F J : Type 0} (s d : Db F J) : Type 0 where
  pub events : Extends s.events d.events
  pub alerts : Extends s.alerts d.alerts
  pub nodes :
      (tenant node : Uuid) → NoOlder (find_node tenant node s.nodes) (find_node tenant node d.nodes)

newest-NoOlder :
    {F : Type 0} (o : Option (NodeRow F)) (q : NodeRow F) (s : ResourceNodeSnapshot F)
    → q.snapshot ≡ newest o s
    → NoOlder o (some q)
newest-NoOlder none q s h = tt
newest-NoOlder (some r) q s h =
    elim (Bool-cases (ltb r.snapshot.last_sequence_id s.last_sequence_id)) [
      | inl l ↦ let same : q.snapshot ≡ s = cc (h, l) in rw same (ground arith)
      | inr l ↦ let same : q.snapshot ≡ r.snapshot = cc (h, l) in rw same (omega arith)
    ]

upsert_row-NoOlder :
    {F : Type 0} (tenant node : Uuid) (row : NodeRow F) (rows : List (NodeRow F))
    → NoOlder (find_node tenant node rows) (find_node tenant node (upsert_row row rows))
upsert_row-NoOlder tenant node row rows = elim (Bool-cases (is_node tenant node row)) [
  | inr e ↦ rw (find_node-other tenant node row rows e) (NoOlder-refl (find_node tenant node rows))
  | inl e ↦
      let (q, found, same) = find_node-upsert_row row rows in
      let t : row.tenant_id ≡ tenant = ground arith in
      let n : row.snapshot.node_id ≡ node = ground arith in
      rw (← t, ← n) (rw found (newest-NoOlder _ q row.snapshot same))
]

module _ {F J : Type 0} where
  pub Advances-refl : (d : Db F J) → Advances d d
  Advances-refl d = record {
    events = ([], refl);
    alerts = ([], refl);
    nodes = λ t n. NoOlder-refl (find_node t n d.nodes);
  }

  pub Advances-trans : (a b c : Db F J) → Advances a b → Advances b c → Advances a c
  Advances-trans a b c h k = record {
    events = Extends-trans a.events b.events c.events h.events k.events;
    alerts = Extends-trans a.alerts b.alerts c.alerts h.alerts k.alerts;
    nodes = λ t n.
        NoOlder-trans (find_node t n a.nodes) (find_node t n b.nodes) (find_node t n c.nodes)
          (h.nodes t n) (k.nodes t n);
  }

  -- A write to the log and the outbox
  pub append-Advances :
      (s d : Db F J)
      → Extends s.events d.events
      → d.nodes ≡ s.nodes
      → d.alerts ≡ s.alerts
      → Advances s d
  append-Advances s d h n a = record {
    events = h;
    alerts = ([], a);
    nodes = λ t m. rw n (NoOlder-refl (find_node t m s.nodes));
  }

  pub upsert-Advances :
      (tenant : Uuid) (snapshot : ResourceNodeSnapshot F) (d : Db F J)
      → Advances d (upsert_node_projection tenant snapshot d)
  unfolding upsert_node_projection
  upsert-Advances tenant snapshot d = record {
    events = ([], refl);
    alerts = ([], refl);
    nodes =
        λ t n. upsert_row-NoOlder t n (record { tenant_id = tenant; snapshot = snapshot }) d.nodes;
  }
