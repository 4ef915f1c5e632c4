-- ===== src/Endpoint/Inputs.antt =====
-- What reaches an operation whatever the body of the request says.
use kookaburra.Prelude.{
  String, Bool, not, ◌||◌, Option, none, some, List, [], ◌∷◌, map, ◌==◌, is_some, ◌≡◌, ◌≢◌, refl,
  sym, ◌∙◌, ap, arith, inl, inr, Bool-cases,
}
use kookaburra.Result.{ok, >>=-eq-ok, ok-injective}
use kookaburra.Dict.{lookup, insert, assign, lookup-insert}
use kookaburra.Rtd.Node.{Params}
use kookaburra.Query.{HttpQuery, QueryString, Number, fit}
use kookaburra.QuerySyntax.{Query}
use kookaburra.Endpoint.{
  Input, undefined, plain, fields, Request, embed, assign_parameters, create_input, embed_route,
  fit_input, is_empty,
}

module _ {V : Type 0} where
  -- Dictionaries that agree on a key agree on it after the same assignment.
  lookup-assign_agree :
      (key : String) (a b entries : List (String × V))
      → lookup key a ≡ lookup key b
      → lookup key (assign a entries) ≡ lookup key (assign b entries)
  unfolding assign
  lookup-assign_agree key a b [] e = e
  lookup-assign_agree key a b ((k, v) ∷ entries) e =
      lookup-assign_agree key (insert k v a) (insert k v b) entries
        (ground (arith, lookup-insert k key v a, lookup-insert k key v b))

  -- An assigned key does not depend on the dictionary.
  lookup-assign_alike :
      (key : String) (a b entries : List (String × V))
      → lookup key entries ≢ none
      → lookup key (assign a entries) ≡ lookup key (assign b entries)
  unfolding assign lookup
  lookup-assign_alike key a b [] h = absurd (h refl)
  lookup-assign_alike key a b ((k, v) ∷ entries) h = elim (Bool-cases (k == key)) [
    | inl same ↦
        lookup-assign_agree key (insert k v a) (insert k v b) entries
          (ground (arith, lookup-insert k key v a, lookup-insert k key v b))
    | inr other ↦ lookup-assign_alike key (insert k v a) (insert k v b) entries (rw other at h)
  ]

  -- The field of an input, if the input is an object that has it
  unfoldable pub field : String → Input V → Option V
  field name undefined = none
  field name (plain v) = none
  field name (fields dict) = lookup name dict

  embed_alike :
      (message name : String) (a b c d : Input V) (entries : List (String × V))
      → lookup name entries ≢ none
      → embed message a entries ≡ ok c
      → embed message b entries ≡ ok d
      → field name c ≡ field name d
  unfolding embed field
  embed_alike message name (fields a) (fields b) c d entries h e f =
      ap (field name) (sym (ok-injective e))
      ∙ lookup-assign_alike name a b entries h
      ∙ ap (field name) (ok-injective f)
  embed_alike message name undefined b c d entries h e f = cc
  embed_alike message name (plain v) b c d entries h e f = cc
  embed_alike message name (fields a) undefined c d entries h e f = cc
  embed_alike message name (fields a) (plain v) c d entries h e f = cc

  assign_parameters_agree :
      (text : String → V) (name : String) (a b c d : Input V)
      (parameters : Option (List (String × String)))
      → field name a ≡ field name b
      → assign_parameters text a parameters ≡ ok c
      → assign_parameters text b parameters ≡ ok d
      → field name c ≡ field name d
  unfolding assign_parameters embed field
  assign_parameters_agree text name a b c d none h e f =
      ap (field name) (sym (ok-injective e)) ∙ h ∙ ap (field name) (ok-injective f)
  assign_parameters_agree text name (fields a) (fields b) c d (some ps) h e f =
      ap (field name) (sym (ok-injective e))
      ∙ lookup-assign_agree name a b (map (λ (n, v). (n, text v)) ps) h
      ∙ ap (field name) (ok-injective f)
  assign_parameters_agree text name undefined b c d (some ps) h e f = cc
  assign_parameters_agree text name (plain v) b c d (some ps) h e f = cc
  assign_parameters_agree text name (fields a) undefined c d (some ps) h e f = cc
  assign_parameters_agree text name (fields a) (plain v) c d (some ps) h e f = cc

  embed_route_alike :
      (value : Option String → V) (name : String) (a b c d : Input V) (params : Params)
      → lookup name (map (λ (n, v). (n, value v)) params) ≢ none
      → embed_route value a params ≡ ok c
      → embed_route value b params ≡ ok d
      → field name c ≡ field name d
  unfolding embed_route lookup
  embed_route_alike value name a b c d [] h e f = absurd (h refl)
  embed_route_alike value name a b c d (p ∷ params) h e f =
      embed_alike _ name a b c d (map (λ (n, v). (n, value v)) (p ∷ params)) h e f

  module _ (parse_int : String → Number) (validate : HttpQuery → Option String)
      (value : Option String → V) where
    -- The runs that a fitted request is made of
    record Parts (q : Query) (a : Input V) (query : HttpQuery) (params : Params) (r : Request V)
        : Type 0 where
      qs : QueryString
      needed : Bool
      routed : Input V
      fits : fit parse_int validate q query params ≡ ok qs
      routes : embed_route value (create_input needed a) params ≡ ok routed
      assigns : assign_parameters (λ text. value (some text)) routed qs.parameters ≡ ok r.input

    parts :
        (q : Query) (a : Input V) (query : HttpQuery) (params : Params) (r : Request V)
        → fit_input parse_int validate value q a query params ≡ ok r
        → Parts q a query params r
    unfolding fit_input
    parts q a query params r e =
        let (qs, fits, e1) = >>=-eq-ok (fit parse_int validate q query params) _ r e in
        let needed : Bool = not (is_empty params) || is_some qs.parameters in
        let (routed, routes, e2) =
          >>=-eq-ok (embed_route value (create_input needed a) params) _ r e1 in
        let (given, assigns, e3) =
          >>=-eq-ok (assign_parameters (λ text. value (some text)) routed qs.parameters) _ r e2 in
        record {
          qs = qs;
          needed = needed;
          routed = routed;
          fits = fits;
          routes = routes;
          assigns = assigns ∙ ap (λ (s : Request V). ok s.input) (ok-injective e3);
        }

    -- A field named like a parameter of the route does not depend on the body: two requests that
    -- differ in their bodies alone give it the same value.
    pub fit_input-independent :
        (q : Query) (a b : Input V) (query : HttpQuery) (params : Params) (r s : Request V)
        (name : String)
        → lookup name (map (λ (n, v). (n, value v)) params) ≢ none
        → fit_input parse_int validate value q a query params ≡ ok r
        → fit_input parse_int validate value q b query params ≡ ok s
        → field name r.input ≡ field name s.input
    fit_input-independent q a b query params r s name h e f =
        let p = parts q a query params r e in
        let s' = parts q b query params s f in
        assign_parameters_agree (λ text. value (some text)) name p.routed s'.routed r.input s.input
          p.qs.parameters
          (embed_route_alike value name _ _ p.routed s'.routed params h p.routes s'.routes)
          p.assigns
          (ap
              (λ (t : QueryString).
                assign_parameters (λ text. value (some text)) s'.routed t.parameters)
              (ok-injective (sym p.fits ∙ s'.fits))
            ∙ s'.assigns)
