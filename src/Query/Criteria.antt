-- ===== src/Query/Criteria.antt =====
-- The criteria that reach a component.
use Prim.Native.Char.{Char, code}
use Prim.Native.String.{[], ◌∷◌}
use text.Mathlib.TextLemmas.{nil-append, cons-append, append_assoc, append-nil}
use kookaburra.Prelude.{
  String, false, Option, none, some, List, [], ◌∷◌, ◌++◌, ◌≡◌, refl, sym, ◌∙◌, ap, arith, inl, inr,
  Bool-cases,
}
use kookaburra.Result.{ok, ◌>>=◌, ok-injective, Result-cases}
use kookaburra.Text.{◌+++◌, join}
use kookaburra.Rtd.Node.{Params}
use kookaburra.Query.{render, take_id, groups_of, fit_criteria, equations}
use kookaburra.QuerySyntax.{
  Query, Operator, comma, semicolon, operator_text, before_semicolon, behind_operator, trim,
}

before_semicolon-append :
    (body : String) (c : Char) → code c ≡ b';' → before_semicolon (body +++ (c ∷ "")) ≡ some body
unfolding before_semicolon
before_semicolon-append [] c e = rw nil-append (ground arith)
before_semicolon-append (d ∷ []) c e = rw (cons-append, nil-append) (ground arith)
before_semicolon-append (d ∷ f ∷ body) c e =
    let ih = rw cons-append at (before_semicolon-append (f ∷ body) c e) in
    rw (cons-append, cons-append) (ground (arith, ih))

sign_first :
    (c : Char) (body : String) (operator : Operator)
    → behind_operator (c ∷ body) ≡ some (operator, body)
    → trim (c ∷ (body +++ ";")) ≡ (body, (false, operator))
unfolding trim
sign_first c body operator e =
    let ends = rw cons-append at (before_semicolon-append (c ∷ body) ";" refl) in
    rw (ends, trim) (rw e (rw ends refl))

-- The criteria of a declaration `;body;` or `,body;` are `body`, open to the client's and joined
-- to the parameters' by the first sign.
pub trim_open :
    (body : String)
    → (trim (";" +++ body +++ ";") ≡ (body, (false, semicolon)))
      × (trim ("," +++ body +++ ";") ≡ (body, (false, comma)))
unfolding trim behind_operator
trim_open body = (
  rw (cons-append, nil-append) (sign_first ";" body semicolon refl),
  rw (cons-append, nil-append) (sign_first "," body comma refl),
)

closing : (rest : String) → "),(" +++ rest ≡ ")" +++ ("," +++ ("(" +++ rest))
closing rest =
    append_assoc ")" ",(" rest ∙ ap (λ (r : String). ")" +++ r) (append_assoc "," "(" rest)

-- A flaw: the client's criteria are put between brackets as they stand. Criteria that close the
-- bracket give the text of three groups, the last joined by a comma, which means "or".
pub injection :
    (q : Query) (own left right : String)
    → q.closed ≡ false
    → (groups_of q [] (some own) (some (left +++ "),(" +++ right)) >>= λ groups. ok (render groups))
      ≡ ok (render ((own, semicolon) ∷ (left, comma) ∷ (right, semicolon) ∷ []))
unfolding groups_of render
injection q own left right e = rw e (simp append_assoc (rw (closing (right +++ ")")) refl))

-- The text has the criteria in brackets.
pub record Bracketed (criteria text : String) : Type 0 where
  pub before : String
  pub behind : String
  pub same : text ≡ before +++ "(" +++ criteria +++ ")" +++ behind

Bracketed-behind :
    (criteria front text : String) → Bracketed criteria text → Bracketed criteria (front +++ text)
Bracketed-behind criteria front text b = record {
  before = front +++ b.before;
  behind = b.behind;
  same = ap (λ (t : String). front +++ t) b.same ∙ sym (append_assoc front b.before _);
}

Bracketed-group :
    (criteria text : String) (g : String × Operator)
    → Bracketed criteria text
    → Bracketed criteria ("(" +++ g.0 +++ ")" +++ operator_text g.1 +++ text)
Bracketed-group criteria text g b = Bracketed-behind criteria "(" _ (
    Bracketed-behind criteria g.0 _
      (Bracketed-behind criteria ")" _ (Bracketed-behind criteria (operator_text g.1) text b)))

Bracketed-render :
    (groups : List (String × Operator)) (criteria : String) (operator : Operator)
    (more : List (String × Operator))
    → Bracketed criteria (render (groups ++ (criteria, operator) ∷ more))
unfolding render
Bracketed-render [] criteria operator [] = record {
  before = "";
  behind = "";
  same = simp (nil-append, append-nil);
}
Bracketed-render [] criteria operator (g ∷ more) = record {
  before = "";
  behind = operator_text operator +++ render (g ∷ more);
  same = rw nil-append refl;
}
Bracketed-render (g ∷ []) criteria operator more =
    Bracketed-group criteria _ g (Bracketed-render [] criteria operator more)
Bracketed-render (g ∷ h ∷ groups) criteria operator more =
    Bracketed-group criteria _ g (Bracketed-render (h ∷ groups) criteria operator more)

own_group :
    (q : Query) (params : Params) (own : String) (given : Option String)
    (groups : List (String × Operator))
    → groups_of q params (some own) given ≡ ok groups
    → (front : List (String × Operator)) × ((more : List (String × Operator)) × (groups
          ≡ front ++ (own, semicolon) ∷ more))
unfolding groups_of
own_group q [] own none groups e = ([], ([], sym (ok-injective e)))
own_group q (p ∷ ps) own none groups e =
    ((join ";" (equations (p ∷ ps)), q.prepend) ∷ [], ([], sym (ok-injective e)))
own_group q [] own (some criteria) groups e = elim (Bool-cases q.closed) [
  | inl shut ↦ cc (rw (shut, groups_of) at e)
  | inr free ↦ ([], ((criteria, semicolon) ∷ [], sym (ok-injective (rw (free, groups_of) at e))))
]
own_group q (p ∷ ps) own (some criteria) groups e = elim (Bool-cases q.closed) [
  | inl shut ↦ cc (rw (shut, groups_of) at e)
  | inr free ↦ (
    (join ";" (equations (p ∷ ps)), q.prepend) ∷ [],
    ((criteria, semicolon) ∷ [], sym (ok-injective (rw (free, groups_of) at e))),
  )
]

rendered :
    (front more : List (String × Operator)) (g : String × Operator) (given : Option String)
    → (elim (front ++ g ∷ more) as (λ _. Option String) [
      | [] ↦ given
      | h ∷ hs ↦ some (render (h ∷ hs))
    ])
      ≡ some (render (front ++ g ∷ more))
rendered [] more g given = refl
rendered (f ∷ front) more g given = refl

-- The criteria that the declaration gives are never dropped: where the fitting succeeds, they
-- stand in brackets in the criteria that the component gets.
pub fit_criteria-Bracketed :
    (q : Query) (params : Params) (own : String) (id given found : Option String)
    (criteria : Option String)
    → fit_criteria q params (some own) id given ≡ ok (found, criteria)
    → (text : String) × (criteria ≡ some text) × Bracketed own text
unfolding fit_criteria
fit_criteria-Bracketed q params own id given found criteria e =
    elim (Result-cases (groups_of q (take_id params).1 (some own) given)) [
      | inl (groups, made) ↦
          let (front, (more, same)) = own_group q (take_id params).1 own given groups made in
          (
            render (front ++ (own, semicolon) ∷ more),
            sym (ap (λ t. t.1) (ok-injective (rw (made, fit_criteria) at e)))
                ∙ ap
                    (λ (gs : List (String × Operator)). elim gs as (λ _. Option String) [
                      | [] ↦ given
                      | h ∷ hs ↦ some (render (h ∷ hs))
                    ])
                    same
                ∙ rendered front more (own, semicolon) given,
            Bracketed-render front own semicolon more,
          )
      | inr (failure, failed) ↦ cc (rw (failed, fit_criteria) at e)
    ]
