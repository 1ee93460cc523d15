-- ===== src/Api/Reading.antt =====
-- Orders read by the names of RFC 8555: the other end of `Serialize` in src/api.rs.
use mathlib.Core.Option
use acme_lib.Prelude.{◌≡◌, refl, ap, String, ◌==◌, if◌then◌else◌, Option, none, some, List, [], ◌∷◌}
use acme_lib.Json.{
  Json, Fields, Items, string, null, array, object, end, field, nil, item, items, optional, strings,
}
use acme_lib.Api.Problem.{ApiIdentifier, ApiSubproblem, ApiProblem}
use acme_lib.Api.Order.{ApiOrder}
use acme_lib.Api.Serialize.{identifier_json, subproblem_json, problem_json, order_json}

-- The first field of the name, in any place among the fields.
abbrev get_field : String → Fields → Option Json
get_field name end = none
get_field name (field key j rest) = if key == name then some j else get_field name rest

abbrev as_text : Json → Option String
as_text (string s) = some s
as_text _ = none

abbrev as_fields : Json → Option Fields
as_fields (object f) = some f
as_fields _ = none

module _ {A : Type 0} where
  -- A field that is left out or `null` has no value.
  abbrev nullable : (Json → Option A) → Option Json → Option (Option A)
  nullable f none = some none
  nullable f (some null) = some none
  nullable f (some j) = Option.map some (f j)

  abbrev all_items : (Json → Option A) → Items → Option (List A)
  all_items f nil = some []
  all_items f (item j l) = Option.bind (f j) λ a. Option.map (λ r. a ∷ r) (all_items f l)

  abbrev as_list : (Json → Option A) → Json → Option (List A)
  as_list f (array l) = all_items f l
  as_list f _ = none

abbrev read_identifier : Json → Option ApiIdentifier
read_identifier j = Option.bind (as_fields j) λ fs.
    Option.bind (Option.bind (get_field "type" fs) as_text) λ type.
      Option.bind (Option.bind (get_field "value" fs) as_text)
        λ value. some (record { type = type; value = value })

abbrev read_subproblem : Json → Option ApiSubproblem
read_subproblem j = Option.bind (as_fields j) λ fs.
    Option.bind (Option.bind (get_field "type" fs) as_text) λ type.
      Option.bind (nullable as_text (get_field "detail" fs)) λ detail.
        Option.bind (nullable read_identifier (get_field "identifier" fs))
          λ identifier. some (record { type = type; detail = detail; identifier = identifier })

abbrev read_problem : Json → Option ApiProblem
read_problem j = Option.bind (as_fields j) λ fs.
    Option.bind (Option.bind (get_field "type" fs) as_text) λ type.
      Option.bind (nullable as_text (get_field "detail" fs)) λ detail.
        Option.bind (nullable (as_list read_subproblem) (get_field "subproblems" fs))
          λ subproblems. some (record { type = type; detail = detail; subproblems = subproblems })

abbrev pub read_order : Json → Option ApiOrder
read_order j = Option.bind (as_fields j) λ fs.
    Option.bind (nullable as_text (get_field "status" fs)) λ status.
      Option.bind (nullable as_text (get_field "expires" fs)) λ expires.
        Option.bind (Option.bind (get_field "identifiers" fs) (as_list read_identifier))
          λ identifiers. Option.bind (nullable as_text (get_field "notBefore" fs)) λ not_before.
            Option.bind (nullable as_text (get_field "notAfter" fs)) λ not_after.
              Option.bind (nullable read_problem (get_field "error" fs)) λ error.
                Option.bind (nullable (as_list as_text) (get_field "authorizations" fs))
                  λ authorizations.
                    Option.bind (Option.bind (get_field "finalize" fs) as_text) λ finalize.
                      Option.bind (nullable as_text (get_field "certificate" fs)) λ certificate.
                        some (record {
                          status = status;
                          expires = expires;
                          identifiers = identifiers;
                          not_before = not_before;
                          not_after = not_after;
                          error = error;
                          authorizations = authorizations;
                          finalize = finalize;
                          certificate = certificate;
                        })

all_items-items :
    {A : Type 0} (f : Json → Option A) (g : A → Json) (l : List A)
    → ((a : A) → f (g a) ≡ some a)
    → all_items f (items g l) ≡ some l
unfolding Option.bind
all_items-items f g [] h = refl
all_items-items f g (a ∷ l) h = rw (h a) (rw (all_items-items f g l h) refl)

nullable_text : (o : Option String) → nullable as_text (some (optional string o)) ≡ some o
nullable_text none = refl
nullable_text (some s) = refl

read-identifier_json : (i : ApiIdentifier) → read_identifier (identifier_json i) ≡ some i
unfolding Option.bind identifier_json
read-identifier_json i = refl

nullable_identifier :
    (o : Option ApiIdentifier)
    → nullable read_identifier (some (optional identifier_json o)) ≡ some o
unfolding Option.bind identifier_json
nullable_identifier none = refl
nullable_identifier (some i) = refl

read-subproblem_json : (p : ApiSubproblem) → read_subproblem (subproblem_json p) ≡ some p
unfolding Option.bind subproblem_json
read-subproblem_json p = rw (nullable_text p.detail) (rw (nullable_identifier p.identifier) refl)

read-problem_json : (p : ApiProblem) → read_problem (problem_json p) ≡ some p
unfolding Option.bind problem_json
read-problem_json p = parts p.detail p.subproblems
  where
    parts :
        (detail : Option String) (subproblems : Option (List ApiSubproblem))
        → read_problem
            (problem_json (record { type = p.type; detail = detail; subproblems = subproblems }))
          ≡ some (record { type = p.type; detail = detail; subproblems = subproblems })
    parts none none = refl
    parts (some d) none = refl
    parts none (some l) =
        rw (all_items-items read_subproblem subproblem_json l read-subproblem_json) refl
    parts (some d) (some l) =
        rw (all_items-items read_subproblem subproblem_json l read-subproblem_json) refl

nullable_problem :
    (o : Option ApiProblem) → nullable read_problem (some (optional problem_json o)) ≡ some o
unfolding problem_json
nullable_problem none = refl
nullable_problem (some p) = ap (Option.map some) (read-problem_json p)

nullable-strings :
    (o : Option (List String)) → nullable (as_list as_text) (some (optional strings o)) ≡ some o
nullable-strings none = refl
nullable-strings (some l) = ap (Option.map some) (all_items-items as_text string l λ s. refl)

ruleset nullable_fields = (nullable_text, nullable_problem, nullable-strings)

-- An order that the library writes as JSON is read back from it as the same order: every field stands
-- under its name in RFC 8555, left out or `null` where it has no value.
pub read_order-order_json : (o : ApiOrder) → read_order (order_json o) ≡ some o
unfolding Option.bind order_json
read_order-order_json o = parts o.status o.expires
  where
    identifiers :
        all_items read_identifier (items identifier_json o.identifiers) ≡ some o.identifiers
    identifiers = all_items-items read_identifier identifier_json o.identifiers read-identifier_json

    parts :
        (status expires : Option String)
        → read_order (
            order_json (record {
              status = status;
              expires = expires;
              identifiers = o.identifiers;
              not_before = o.not_before;
              not_after = o.not_after;
              error = o.error;
              authorizations = o.authorizations;
              finalize = o.finalize;
              certificate = o.certificate;
            }))
          ≡ some (record {
            status = status;
            expires = expires;
            identifiers = o.identifiers;
            not_before = o.not_before;
            not_after = o.not_after;
            error = o.error;
            authorizations = o.authorizations;
            finalize = o.finalize;
            certificate = o.certificate;
          })
    parts none none = simp (identifiers, nullable_fields)
    parts none (some e) = simp (identifiers, nullable_fields)
    parts (some s) none = simp (identifiers, nullable_fields)
    parts (some s) (some e) = simp (identifiers, nullable_fields)
