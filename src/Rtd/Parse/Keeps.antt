-- ===== src/Rtd/Parse/Keeps.antt =====
-- A declaration that is parsed is kept whole.
use kookaburra.Prelude.{
  ℕ, ◌∙◌, String, Bool, true, false, Option, none, some, List, [], ◌∷◌, ◌==◌, if◌then◌else◌,
  includes, is_some, ◌≡◌, refl, sym, ap, subst, eq_iff,
}
use kookaburra.Result.{Result, ok, >>=-eq-ok, ok-injective}
use kookaburra.Text.{starts_with}
use kookaburra.Rtd.Factory.{Directive, SyntaxMethod}
use kookaburra.Untyped.{
  Json, null, truth, number, text, array, object, no_items, item, Members, no_members, member,
}
use kookaburra.Rtd.Parse.{
  SyntaxTree, Part, protects, isolates, forwards, routes_to, handles, directs, unknown, part_of,
  empty_node, with_protected, with_isolated, with_forward, with_route, with_method, with_directive,
  flag_of, path_of, add_part, parse_node, parse_members,
}
use kookaburra.Rtd.Parse.Mapping.{verbs, parse_directive, parse_method}
use kookaburra.Rtd.Parse.Declared.{
  IsDirective, IsMethod, parse_directive-IsDirective, parse_method-IsMethod,
}

-- The verbs of the methods of HTTP
abbrev pub http_verbs : List String
http_verbs = "GET" ∷ "HEAD" ∷ "POST" ∷ "PUT" ∷ "PATCH" ∷ "DELETE" ∷ "LOCK" ∷ "UNLOCK" ∷ []

module _ (shortcuts : List (String × String)) (validate : SyntaxTree → Result (Unit {0})) where
  mutual
    -- The node that a value declares: a text is a path to forward to, an object declares by its
    -- keys, and other values declare nothing.
    pub data Declares : Json → SyntaxTree → Type 0 where
      path : (to : String) → Declares (text to) (with_forward to empty_node)
      keys :
          (fields : Members) (tree : SyntaxTree) → Lists fields tree → Declares (object fields) tree
      no_keys : Declares (array no_items) empty_node
      of_truth : (b : Bool) → Declares (truth b) empty_node
      of_number : (n : ℕ) → Declares (number n) empty_node

    -- Each key declares one thing: a flag of the node, where it forwards to, a route with the valid
    -- node of its value, a method, or a directive, before those that the later keys declare.
    pub data Lists : Members → SyntaxTree → Type 0 where
      nothing : Lists no_members empty_node
      protected :
          (flag : Bool) (rest : Members) (tree : SyntaxTree)
          → Lists rest tree
          → Lists (member "protected" (truth flag) rest) (with_protected flag tree)
      isolated :
          (flag : Bool) (rest : Members) (tree : SyntaxTree)
          → Lists rest tree
          → Lists (member "isolated" (truth flag) rest) (with_isolated flag tree)
      forward :
          (to : String) (rest : Members) (tree : SyntaxTree)
          → Lists rest tree
          → Lists (member "forward" (text to) rest) (with_forward to tree)
      route :
          (key : String) (value : Json) (rest : Members) (inner tree : SyntaxTree)
          → starts_with key "/" ≡ true
          → Declares value inner
          → validate inner ≡ ok tt
          → Lists rest tree
          → Lists (member key value rest) (with_route key inner tree)
      method :
          (key : String) (value : Json) (rest : Members) (m : SyntaxMethod Json Members)
          (tree : SyntaxTree)
          → includes http_verbs key ≡ true
          → IsMethod shortcuts key value m
          → Lists rest tree
          → Lists (member key value rest) (with_method m tree)
      directive :
          (key : String) (value : Json) (rest : Members) (d : Directive Json) (tree : SyntaxTree)
          → IsDirective shortcuts key value d
          → Lists rest tree
          → Lists (member key value rest) (with_directive (some d) tree)

  -- What a key is, of each kind
  abbrev KindOf : String → Json → Part → Type 0
  KindOf key value protects = key ≡ "protected"
  KindOf key value isolates = key ≡ "isolated"
  KindOf key value forwards = key ≡ "forward"
  KindOf key value routes_to = starts_with key "/" ≡ true
  KindOf key value handles = includes http_verbs key ≡ true
  KindOf key value directs = (d : Directive Json) × (parse_directive shortcuts key value ≡ some d)
  KindOf key value unknown = Unit

  picked :
      (P : Part → Type 0) (b : Bool) (part other : Part)
      → (b ≡ true → P part)
      → P other
      → P (if b then part else other)
  picked P true part other h k = h refl
  picked P false part other h k = k

  is_some-value : {A : Type 0} (o : Option A) → is_some o ≡ true → (a : A) × (o ≡ some a)
  is_some-value none e = cc
  is_some-value (some a) e = (a, refl)

  part_of-KindOf : (key : String) (value : Json) → KindOf key value (part_of shortcuts key value)
  unfolding part_of
  part_of-KindOf key value =
      picked (KindOf key value) (key == "protected") protects _ (λ e. (eq_iff key _).0 e)
        (picked (KindOf key value) (key == "isolated") isolates _ (λ e. (eq_iff key _).0 e)
          (picked (KindOf key value) (key == "forward") forwards _ (λ e. (eq_iff key _).0 e)
            (picked (KindOf key value) (starts_with key "/") routes_to _ (λ e. e)
              (picked (KindOf key value) (includes verbs key) handles _ (λ e. e)
                (picked (KindOf key value) (is_some (parse_directive shortcuts key value)) directs
                  unknown (λ e. is_some-value _ e) tt)))))

  is_truth : (value : Json) (flag : Bool) → flag_of value ≡ ok flag → value ≡ truth flag
  is_truth (truth b) flag e = ap truth (ok-injective e)
  is_truth null flag e = cc
  is_truth (number n) flag e = cc
  is_truth (text t) flag e = cc
  is_truth (array items) flag e = cc
  is_truth (object fields) flag e = cc

  is_path : (value : Json) (to : String) → path_of value ≡ ok to → value ≡ text to
  is_path (text t) to e = ap text (ok-injective e)
  is_path null to e = cc
  is_path (number n) to e = cc
  is_path (truth b) to e = cc
  is_path (array items) to e = cc
  is_path (object fields) to e = cc

  moved :
      (key other : String) (value given : Json) (rest : Members) (tree : SyntaxTree)
      → key ≡ other
      → value ≡ given
      → Lists (member other given rest) tree
      → Lists (member key value rest) tree
  moved key other value given rest tree h k listed =
      subst (λ x. Lists (member x value rest) tree) (sym h)
        (subst (λ v. Lists (member other v rest) tree) (sym k) listed)

  add_part-Lists :
      (part : Part) (key : String) (value : Json) (rest : Members)
      (target later : Result SyntaxTree) (tree : SyntaxTree)
      → KindOf key value part
      → ((inner : SyntaxTree) → target ≡ ok inner → Declares value inner)
      → ((node : SyntaxTree) → later ≡ ok node → Lists rest node)
      → add_part shortcuts validate part key value target later ≡ ok tree
      → Lists (member key value rest) tree
  unfolding add_part
  add_part-Lists protects key value rest target later tree kind h k e =
      let (flag, given, r0) = >>=-eq-ok (flag_of value) _ tree e in
      let (node, done, r1) = >>=-eq-ok later _ tree r0 in
      moved key "protected" value _ rest tree kind (is_truth value flag given)
        (subst (Lists _) (ok-injective r1) (protected flag rest node (k node done)))
  add_part-Lists isolates key value rest target later tree kind h k e =
      let (flag, given, r0) = >>=-eq-ok (flag_of value) _ tree e in
      let (node, done, r1) = >>=-eq-ok later _ tree r0 in
      moved key "isolated" value _ rest tree kind (is_truth value flag given)
        (subst (Lists _) (ok-injective r1) (isolated flag rest node (k node done)))
  add_part-Lists forwards key value rest target later tree kind h k e =
      let (to, given, r0) = >>=-eq-ok (path_of value) _ tree e in
      let (node, done, r1) = >>=-eq-ok later _ tree r0 in
      moved key "forward" value _ rest tree kind (is_path value to given)
        (subst (Lists _) (ok-injective r1) (forward to rest node (k node done)))
  add_part-Lists routes_to key value rest target later tree kind h k e =
      let (inner, parsed, r0) = >>=-eq-ok target _ tree e in
      let (u, valid, r1) = >>=-eq-ok (validate inner) _ tree r0 in
      let (node, done, r2) = >>=-eq-ok later _ tree r1 in
      subst (Lists (member key value rest)) (ok-injective r2)
        (route key value rest inner node kind (h inner parsed) valid (k node done))
  add_part-Lists handles key value rest target later tree kind h k e =
      let (m, parsed, r0) = >>=-eq-ok (parse_method shortcuts key value) _ tree e in
      let (node, done, r1) = >>=-eq-ok later _ tree r0 in
      subst (Lists (member key value rest)) (ok-injective r1) (
        method key value rest m node kind (parse_method-IsMethod shortcuts key value m parsed)
          (k node done))
  add_part-Lists directs key value rest target later tree (d, found) h k e =
      let (node, done, r1) = >>=-eq-ok later _ tree e in
      subst (Lists (member key value rest))
        (ap (λ o. with_directive o node) (sym found) ∙ ok-injective r1)
        (directive key value rest d node (parse_directive-IsDirective shortcuts key value d found)
          (k node done))
  add_part-Lists unknown key value rest target later tree kind h k e = cc

  mutual
    unfolding parse_node parse_members

    parse_node-Declares :
        (value : Json) (tree : SyntaxTree)
        → parse_node shortcuts validate value ≡ ok tree
        → Declares value tree
    parse_node-Declares (text to) tree e = subst (Declares _) (ok-injective e) (path to)
    parse_node-Declares (object fields) tree e =
        keys fields tree (parse_members-Lists fields tree e)
    parse_node-Declares (array no_items) tree e = subst (Declares _) (ok-injective e) no_keys
    parse_node-Declares (array (item value rest)) tree e = cc
    parse_node-Declares null tree e = cc
    parse_node-Declares (truth b) tree e = subst (Declares _) (ok-injective e) (of_truth b)
    parse_node-Declares (number n) tree e = subst (Declares _) (ok-injective e) (of_number n)

    parse_members-Lists :
        (fields : Members) (tree : SyntaxTree)
        → parse_members shortcuts validate fields ≡ ok tree
        → Lists fields tree
    parse_members-Lists no_members tree e = subst (Lists _) (ok-injective e) nothing
    parse_members-Lists (member key value rest) tree e =
        add_part-Lists (part_of shortcuts key value) key value rest
          (parse_node shortcuts validate value) (parse_members shortcuts validate rest) tree
          (part_of-KindOf key value) (parse_node-Declares value) (parse_members-Lists rest) e
