-- ===== src/Api/Serialize.antt =====
-- `Serialize` of the objects that the library sends: fields in the order of declaration, under their
-- JSON names, left out or `null` as the attributes of src/api.rs say.
use acme_lib.Prelude.{List}
use acme_lib.Json.{
  Json, string, bool, number, array, object, end, field, optional, field_if_some, items, strings,
}
use acme_lib.Api.Problem.{ApiIdentifier, ApiSubproblem, ApiProblem}
use acme_lib.Api.Account.{ApiAccount}
use acme_lib.Api.Order.{ApiOrder, ApiFinalize, ApiRevocation}

-- `ApiEmptyString`
unfoldable pub empty_string_json : Json
empty_string_json = string ""

-- `ApiEmptyObject`
unfoldable pub empty_object_json : Json
empty_object_json = object end

unfoldable pub identifier_json : ApiIdentifier → Json
identifier_json i = object (field "type" (string i.type) (field "value" (string i.value) end))

unfoldable pub subproblem_json : ApiSubproblem → Json
subproblem_json p = object (
    field "type" (string p.type) (
      field "detail" (optional string p.detail)
        (field "identifier" (optional identifier_json p.identifier) end)))

unfoldable pub problem_json : ApiProblem → Json
problem_json p = object (
    field "type" (string p.type) (
      field_if_some "detail" string p.detail (
        field_if_some "subproblems" (λ (l : List ApiSubproblem). array (items subproblem_json l))
          p.subproblems end)))

unfoldable pub account_json : ApiAccount → Json
account_json a = object (
    field_if_some "status" string a.status (
      field "contact" (strings a.contact) (
        field_if_some "termsOfServiceAgreed" bool a.terms_of_service_agreed
          (field_if_some "orders" string a.orders end))))

unfoldable pub order_json : ApiOrder → Json
unfolding problem_json identifier_json
order_json o = object (
    field_if_some "status" string o.status (
      field_if_some "expires" string o.expires (
        field "identifiers" (array (items identifier_json o.identifiers)) (
          field "notBefore" (optional string o.not_before) (
            field "notAfter" (optional string o.not_after) (
              field "error" (optional problem_json o.error) (
                field "authorizations" (optional strings o.authorizations) (
                  field "finalize" (string o.finalize)
                    (field "certificate" (optional string o.certificate) end)))))))))

unfoldable pub finalize_json : ApiFinalize → Json
finalize_json f = object (field "csr" (string f.csr) end)

unfoldable pub revocation_json : ApiRevocation → Json
revocation_json r =
    object (field "certificate" (string r.certificate) (field "reason" (number r.reason) end))
