-- ===== src/Connector/Nodes.antt =====
-- services/connector/src/main.rs: the node that a browser is sent to.
use callifornia.Connector.Config.{SignalingInstance, find_by_id}
use callifornia.Connector.Handlers.{choose, load_of}
use callifornia.ControlStore.Select.Least.{IsChoice, min_by-IsChoice}
use callifornia.Map.{contains}
use callifornia.Prelude.{
  ℕ, String, List, [], ◌∷◌, Option, none, some, Bool-cases, inl, inr, ◌==◌, ◌≡◌, arith,
}
use mathlib.Core.List.{Memᴰ}

-- The node that is chosen is configured, Redis has it among the nodes that are alive, and its load is
-- at most that of every configured node that is alive; if none is chosen, no configured node is
-- alive.
pub choose-IsChoice :
    (loads : List (String × ℕ)) (alive : List String) (instances : List SignalingInstance)
    → IsChoice
        (load_of loads)
        (λ inst. contains inst.id alive)
        instances
        (choose loads alive instances)
unfolding choose
choose-IsChoice loads alive instances =
    min_by-IsChoice (load_of loads) (λ inst. contains inst.id alive) instances

pub chosen-Mem :
    (loads : List (String × ℕ)) (alive : List String) (instances : List SignalingInstance)
    (inst : SignalingInstance)
    → choose loads alive instances ≡ some inst
    → Memᴰ inst instances
chosen-Mem loads alive instances inst e =
    go (choose loads alive instances) (choose-IsChoice loads alive instances) e
  where
    go :
        (o : Option SignalingInstance)
        → IsChoice (load_of loads) (λ i. contains i.id alive) instances o
        → o ≡ some inst
        → Memᴰ inst instances
    go none h e = absurd cc
    go (some i) h e = let same : i ≡ inst = cc in rw (← same) h.0

pub found-Mem :
    (id : String) (instances : List SignalingInstance) (inst : SignalingInstance)
    → find_by_id id instances ≡ some inst
    → Memᴰ inst instances
unfolding find_by_id
found-Mem id [] inst e = absurd cc
found-Mem id (i ∷ instances) inst e = elim (Bool-cases (i.id == id)) [
  | inl k ↦ Memᴰ.head (ground (arith, e, k))
  | inr k ↦ Memᴰ.tail (found-Mem id instances inst (ground (arith, e, k)))
]
