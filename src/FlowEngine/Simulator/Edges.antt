-- ===== src/FlowEngine/Simulator/Edges.antt =====
-- The edge that the simulator follows.
use zernflow.Base.{
  ℕ, ◌≡◌, Bool, true, ◌&&◌, Option, none, some, List, arith, find, find-any, find_holds, ◌==◌,
}
use zernflow.Base.Json.{Text}
use zernflow.FlowEngine.Types.{FlowEdge}
use zernflow.FlowEngine.Messages.{nonempty}
use zernflow.FlowEngine.Engine.Walk.{joined}
use zernflow.FlowEngine.Simulator.Run.{
  leaves, has_handle, has_none, handled, or_plain, or_any, next_edge,
}

find-leaves :
    (id : ℕ) (also : FlowEdge → Bool) (edges : List FlowEdge) {e : FlowEdge}
    → find (λ x. leaves id x && also x) edges ≡ some e
    → joined edges id e.target ≡ true
find-leaves id also edges {e} found =
    find-any (λ x. leaves id x && also x) (λ x. x.source == id && x.target == e.target) edges found
      (let both = find_holds (λ x. leaves id x && also x) edges found in ground arith)

or_any-joined :
    (id : ℕ) (edges : List FlowEdge) (x : Option FlowEdge) {e : FlowEdge}
    → ((d : FlowEdge) → x ≡ some d → joined edges id d.target ≡ true)
    → or_any id edges x ≡ some e
    → joined edges id e.target ≡ true
or_any-joined id edges none {e} h found =
    find-any (leaves id) (λ x. x.source == id && x.target == e.target) edges found
      (let out = find_holds (leaves id) edges found in ground arith)
or_any-joined id edges (some d) {e} h found = h e found

or_plain-joined :
    (id : ℕ) (edges : List FlowEdge) (x : Option FlowEdge) (e : FlowEdge)
    → ((d : FlowEdge) → x ≡ some d → joined edges id d.target ≡ true)
    → or_plain id edges x ≡ some e
    → joined edges id e.target ≡ true
or_plain-joined id edges none e h found = find-leaves id has_none edges found
or_plain-joined id edges (some d) e h found = h e found

handled-joined :
    (id : ℕ) (edges : List FlowEdge) (h : Option Text) (e : FlowEdge)
    → handled id h edges ≡ some e
    → joined edges id e.target ≡ true
handled-joined id edges none e found = cc
handled-joined id edges (some h) e found = find-leaves id (has_handle h) edges found

pub next_edge-joined :
    (id : ℕ) (h : Option Text) (edges : List FlowEdge) {e : FlowEdge}
    → next_edge id h edges ≡ some e
    → joined edges id e.target ≡ true
unfolding next_edge
next_edge-joined id h edges found =
    or_any-joined id edges (or_plain id edges (handled id (nonempty h) edges))
      (λ d.
        or_plain-joined id edges (handled id (nonempty h) edges) d
          (handled-joined id edges (nonempty h)))
      found

or_any-none :
    (id : ℕ) (edges : List FlowEdge) (x : Option FlowEdge)
    → or_any id edges x ≡ none
    → find (leaves id) edges ≡ none
or_any-none id edges none e = e
or_any-none id edges (some d) e = cc

-- No edge is found only where none leaves the node, whatever the handle is.
pub next_edge-none :
    (id : ℕ) (h : Option Text) (edges : List FlowEdge)
    → next_edge id h edges ≡ none
    → find (leaves id) edges ≡ none
unfolding next_edge
next_edge-none id h edges = or_any-none id edges (or_plain id edges (handled id (nonempty h) edges))
