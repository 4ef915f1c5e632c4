-- ===== src/Gateway/Branches.antt =====
-- Merging the branches that components expose, again and again, in any order of arrival.
use kookaburra.Prelude.{
  String, true, List, [], ◌∷◌, ◌++◌, eq_refl, includes, ◌≡◌, refl, arith, Bool-cases, inl, inr,
}
use kookaburra.Result.{Result, Result-cases}
use kookaburra.Rtd.Merge.Laws.{IsRooted}
use kookaburra.Rtd.Factory.{Directive, SyntaxMethod, Method, merge_tree}
use kookaburra.Rtd.Factory.Inherits.{merge_tree-IsRooted}
use kookaburra.Gateway.{Gateway, Branch, branch_id, merge_branch, merge_branches}

includes-append_self : (xs : List String) (x : String) → includes (xs ++ x ∷ []) x ≡ true
includes-append_self [] x = ground (arith, eq_refl x)
includes-append_self (y ∷ xs) x = ground (arith, includes-append_self xs x)

includes-append_left :
    (xs ys : List String) (x : String) → includes xs x ≡ true → includes (xs ++ ys) x ≡ true
includes-append_left [] ys x h = cc
includes-append_left (y ∷ xs) ys x h = ground (arith, includes-append_left xs ys x)

module _ {V P D E : Type 0} (create_directives : List (Directive V) → Result D)
    (create_endpoint : Branch V P → SyntaxMethod V P → Result E) where
  merge_branch-includes :
      (gateway : Gateway V (Method D E)) (branch : Branch V P)
      → includes
          (merge_branch create_directives create_endpoint gateway branch).merged
          (branch_id branch)
        ≡ true
  unfolding merge_branch
  merge_branch-includes gateway branch =
      elim (Bool-cases (includes gateway.merged (branch_id branch))) [
        | inl known ↦ rw known known
        | inr unknown ↦ rw unknown (includes-append_self gateway.merged (branch_id branch))
      ]

  merge_branch-keeps :
      (gateway : Gateway V (Method D E)) (branch : Branch V P) (id : String)
      → includes gateway.merged id ≡ true
      → includes (merge_branch create_directives create_endpoint gateway branch).merged id ≡ true
  unfolding merge_branch
  merge_branch-keeps gateway branch id h =
      elim (Bool-cases (includes gateway.merged (branch_id branch))) [
        | inl known ↦ rw known h
        | inr unknown ↦
            rw unknown (includes-append_left gateway.merged (branch_id branch ∷ []) id h)
      ]

  merge_branches-keeps :
      (gateway : Gateway V (Method D E)) (branches : List (Branch V P)) (id : String)
      → includes gateway.merged id ≡ true
      → includes (merge_branches create_directives create_endpoint gateway branches).merged id
        ≡ true
  unfolding merge_branches
  merge_branches-keeps gateway [] id h = h
  merge_branches-keeps gateway (branch ∷ rest) id h =
      merge_branches-keeps (merge_branch create_directives create_endpoint gateway branch) rest id
        (merge_branch-keeps gateway branch id h)

  merge_branch-known :
      (gateway : Gateway V (Method D E)) (branch : Branch V P)
      → includes gateway.merged (branch_id branch) ≡ true
      → merge_branch create_directives create_endpoint gateway branch ≡ gateway
  unfolding merge_branch
  merge_branch-known gateway branch h = rw h refl

  -- A branch that has arrived once changes nothing when it, or another with its label, arrives
  -- again, whatever has arrived in between, and whether or not merging it failed.
  pub merge_branches_once :
      (gateway : Gateway V (Method D E)) (branch again : Branch V P) (between : List (Branch V P))
      → branch_id again ≡ branch_id branch
      → merge_branch create_directives create_endpoint
          (merge_branches create_directives create_endpoint
            (merge_branch create_directives create_endpoint gateway branch)
            between)
          again
        ≡ merge_branches create_directives create_endpoint
            (merge_branch create_directives create_endpoint gateway branch)
            between
  merge_branches_once gateway branch again between same = merge_branch-known _ again (
      rw same
        (merge_branches-keeps _ between (branch_id branch) (merge_branch-includes gateway branch)))

  merge_branch-IsRooted :
      (gateway : Gateway V (Method D E)) (branch : Branch V P)
      → IsRooted gateway.tree.trunk
      → IsRooted (merge_branch create_directives create_endpoint gateway branch).tree.trunk
  unfolding merge_branch
  merge_branch-IsRooted gateway branch h =
      elim (Bool-cases (includes gateway.merged (branch_id branch))) [
        | inl known ↦ rw known h
        | inr unknown ↦
            rw unknown
              (elim (Result-cases (
                merge_tree create_directives (create_endpoint branch) gateway.tree branch.syntax)) [
                  | inl (grown, done) ↦ rw done (
                      merge_tree-IsRooted create_directives (create_endpoint branch) gateway.tree
                        grown branch.syntax h done)
                  | inr (failure, failed) ↦ rw failed h
                ])
      ]

  -- Whatever branches arrive, failing ones too, the gateway's tree stays such that every
  -- intermediate node has a root route.
  pub merge_branches-IsRooted :
      (gateway : Gateway V (Method D E)) (branches : List (Branch V P))
      → IsRooted gateway.tree.trunk
      → IsRooted (merge_branches create_directives create_endpoint gateway branches).tree.trunk
  unfolding merge_branches
  merge_branches-IsRooted gateway [] h = h
  merge_branches-IsRooted gateway (branch ∷ rest) h =
      merge_branches-IsRooted (merge_branch create_directives create_endpoint gateway branch) rest
        (merge_branch-IsRooted gateway branch h)
