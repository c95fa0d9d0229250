-- ===== src/Graph/Invariant/Rows.antt =====
-- s13code/core/live_graph/store.py: what each method but `apply_patch` does to the tables `nodes`
-- and `edges`.
use s14code.Prelude.{
  String, ◌≡◌, refl, sym, ap, ap₂, ◌∙◌, Bool, false, some, List, [], ◌∷◌, if_both, any,
  any-update_where, update_where, Bool-cases, inl, inr, ◌==◌, ◌&&◌,
}
use s14code.Json.{Dict}
use s14code.Graph.Model.{
  running, TaskSpec, Event, NodeRow, GraphDb, ok, guard, unknown_run, foreign_key, not_running,
}
use s14code.Graph.Store.{
  has_run, is_node, start, resume, mark_running, record_outcome, record_external_event, requeue,
  is_claimed, outcome_state,
}
use s14code.Graph.Patch.Shape.{>>=-ok, ok_inj}
use s14code.Graph.Patch.States.{IsKeyed}

-- An update that keeps the keys.
pub IsKeyed-update_where :
    (p : NodeRow → Bool) (f : NodeRow → NodeRow) (rows : List NodeRow)
    → ((n : NodeRow) → ((f n).run_id ≡ n.run_id) × ((f n).id ≡ n.id))
    → IsKeyed rows
    → IsKeyed (update_where p f rows)
IsKeyed-update_where p f [] same k = tt
IsKeyed-update_where p f (n ∷ ns) same k = (
  if_both (λ (m : NodeRow). any (is_node m.run_id m.id) (update_where p f ns) ≡ false) (p n)
      (rw ((same n).0, (same n).1) later) later,
  IsKeyed-update_where p f ns same k.1,
)
  where
    later : any (is_node n.run_id n.id) (update_where p f ns) ≡ false
    later =
        any-update_where (is_node n.run_id n.id) p f ns
          (λ m. ap₂ (λ r i. r == n.run_id && i == n.id) (same m).0 (same m).1)
        ∙ k.0

module _ (db : GraphDb) where
  pub start-nodes :
      (run_id : String) (context : Dict)
      → ((start db run_id context).1.nodes ≡ db.nodes)
        × ((start db run_id context).1.edges ≡ db.edges)
  unfolding start
  start-nodes run_id context = elim (Bool-cases (has_run db run_id)) [
    | inl old ↦ (rw old refl, rw old refl)
    | inr new ↦ (rw new refl, rw new refl)
  ]

  pub resume-nodes :
      (db' : GraphDb) (run_id : String)
      → resume db run_id ≡ ok db'
      → (db'.nodes ≡ requeue run_id db.nodes) × (db'.edges ≡ db.edges)
  unfolding resume
  resume-nodes db' run_id h =
      let (_, _, e) = >>=-ok (guard (has_run db run_id) unknown_run) _ h in
      let same = sym (ok_inj e) in
      (ap (λ (x : GraphDb). x.nodes) same, ap (λ (x : GraphDb). x.edges) same)

  pub record_outcome-nodes :
      (db' : GraphDb) (run_id node_id : String) (success : Bool) (payload : Dict) (e : Event)
      → record_outcome db run_id node_id success payload ≡ ok (e, db')
      → (db'.nodes
          ≡ update_where
              (is_claimed run_id node_id)
              (λ n. record n { state = outcome_state success; result = some payload })
              db.nodes)
        × (db'.edges ≡ db.edges)
  unfolding record_outcome
  record_outcome-nodes db' run_id node_id success payload e h =
      let (_, _, k) =
        >>=-ok (guard (any (is_claimed run_id node_id) db.nodes) (not_running node_id)) _
          {b = (e, db')} h in
      let same = sym (ok_inj k) in
      (ap (λ (x : Event × GraphDb). x.1.nodes) same, ap (λ (x : Event × GraphDb). x.1.edges) same)

  pub external-nodes :
      (db' : GraphDb) (run_id kind node_id : String) (payload : Dict) (e : Event)
      → record_external_event db run_id kind node_id payload ≡ ok (e, db')
      → (db'.nodes ≡ db.nodes) × (db'.edges ≡ db.edges)
  unfolding record_external_event
  external-nodes db' run_id kind node_id payload e h =
      let (_, _, k) = >>=-ok (guard (has_run db run_id) unknown_run) _ {b = (e, db')} h in
      let same = sym (ok_inj k) in
      (ap (λ (x : Event × GraphDb). x.1.nodes) same, ap (λ (x : Event × GraphDb). x.1.edges) same)

pub mark_running-keeps :
    (ts : List TaskSpec) (db db' : GraphDb) (run_id : String)
    → mark_running db run_id ts ≡ ok db'
    → (IsKeyed db.nodes → IsKeyed db'.nodes) × (db'.edges ≡ db.edges)
unfolding mark_running
mark_running-keeps [] db db' run_id h = rw (← ok_inj h) ((λ k. k), refl)
mark_running-keeps (t ∷ ts) db db' run_id h =
    let (_, _, e) = >>=-ok (guard (has_run db run_id) foreign_key) _ h in
    let (keyed, edges) = mark_running-keeps ts _ db' run_id e in
    (
      λ k. keyed (
          IsKeyed-update_where _ (λ n. record n { state = running }) db.nodes (λ n. (refl, refl))
            k),
      edges,
    )
