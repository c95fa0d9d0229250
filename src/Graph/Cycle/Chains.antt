-- ===== src/Graph/Cycle/Chains.antt =====
-- Chains of edges: what a dependency cycle is, apart from any search.
use s14code.Prelude.{String, ◌≡◌, true, List, [], ◌∷◌, arith, eq_iff, contains}
use s14code.Graph.Cycle.{children, parents}

-- A chain of one or more edges from a node to a node.
pub data Chain (es : List (String × String)) : String → String → Type 0 where
  edge : {a b : String} → contains b (children es a) ≡ true → Chain es a b
  step : {a b c : String} → contains b (children es a) ≡ true → Chain es b c → Chain es a c

abbrev pub IsCyclic : List (String × String) → Type 0
IsCyclic es = (x : String) × Chain es x x

pub Chain-snoc :
    {es : List (String × String)} {a b c : String}
    → Chain es a b
    → contains c (children es b) ≡ true
    → Chain es a c
Chain-snoc (edge h) k = step h (edge k)
Chain-snoc (step h r) k = step h (Chain-snoc r k)

-- What has a child is a parent of some row.
pub contains-parents :
    (es : List (String × String)) (a b : String)
    → contains b (children es a) ≡ true
    → contains a (parents es) ≡ true
unfolding children parents
contains-parents [] a b h = h
contains-parents ((p, c) ∷ es) a b h =
    ground (arith, contains-parents es a b, eq_iff p a, eq_iff a p)

-- A chain starts at a parent.
pub Chain-parents :
    {es : List (String × String)} {a b : String} → Chain es a b → contains a (parents es) ≡ true
Chain-parents {es} {a} {b} (edge h) = contains-parents es a b h
Chain-parents {es} {a} (step {b = b} h r) = contains-parents es a b h
