-- ===== src/Json.antt =====
-- JSON values, as `json.loads` gives them: Python's `dict[str, Any]` and what stands in it. A
-- float is not modelled. A dict keeps its keys in insertion order.
use s14code.Prelude.{
  ℕ, String, ◌≡◌, refl, Bool, true, false, not, nat_eq, Option, none, some, arith, ◌==◌, eq_iff,
  if◌then◌else◌,
}

-- An integer; `negsuc n` is -(n + 1).
pub data ℤ : Type 0 where
  pos : ℕ → ℤ
  negsuc : ℕ → ℤ

mutual
  pub data Json : Type 0 where
    null : Json
    bool : Bool → Json
    int : ℤ → Json
    str : String → Json
    arr : Items → Json
    obj : Dict → Json

  pub data Items : Type 0 where
    nil : Items
    cons : Json → Items → Items

  pub data Dict : Type 0 where
    empty : Dict
    entry : String → Json → Dict → Dict

-- `d.get(k)`: `none` on a missing key.
unfoldable pub get : Dict → String → Option Json
get empty k = none
get (entry j v d) k = if j == k then some v else get d k

-- `d[k] = v`: an old key keeps its place.
unfoldable pub set : Dict → String → Json → Dict
set empty k v = entry k v empty
set (entry j w d) k v = if j == k then entry j v d else entry j w (set d k v)

-- `d.get(k, default)`
abbrev pub get_or : Dict → String → Json → Json
get_or d k default = elim (get d k) [ none ↦ default | some v ↦ v ]

-- `isinstance` tests that give the value.
abbrev pub as_dict : Json → Option Dict
as_dict (obj d) = some d
as_dict _ = none

abbrev pub as_items : Json → Option Items
as_items (arr xs) = some xs
as_items _ = none

abbrev pub as_bool : Json → Option Bool
as_bool (bool b) = some b
as_bool _ = none

abbrev pub as_text : Json → Option String
as_text (str s) = some s
as_text _ = none

-- Whether Python's `if v` takes the branch.
abbrev pub truthy : Json → Bool
truthy null = false
truthy (bool b) = b
truthy (int (pos n)) = not (nat_eq n 0)
truthy (int (negsuc n)) = true
truthy (str s) = not (s == "")
truthy (arr nil) = false
truthy (arr (cons x xs)) = true
truthy (obj empty) = false
truthy (obj (entry k v d)) = true

-- What is read after a write, in one equation.
pub get-set :
    (d : Dict) (k j : String) (v : Json) → get (set d k v) j ≡ (if k == j then some v else get d j)
unfolding get set
get-set empty k j v = refl
get-set (entry i w d) k j v = ground (arith, eq_iff k j, eq_iff i k, eq_iff i j, get-set d k j v)
