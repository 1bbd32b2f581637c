-- ===== src/OpenApi/Responses.antt =====
-- Which responses an operation has in the description.
use rpi_nest_api.Prelude.{
  ◌∙◌, List, [], ◌∷◌, String, Bool, ◌&&◌, not, ◌≡◌, refl, ap, fun_ext, Option, none, some, is_some,
  ◌==◌, if◌then◌else◌, arith, eq_iff,
}
use rpi_nest_api.Dbus.Variants.{Value}
use rpi_nest_api.OpenApi.{
  add_default_responses, HttpMethod, get_, put, post, delete, options, head, patch, trace,
  HttpMethod-discrete, all_methods, Operation, PathItem, get_response_ref, is_get,
  with_default_responses, set_default, visit, visit_each, map_operation,
}

-- What an operation answers with a code that it does not describe itself.
abbrev pub default_response : HttpMethod → Bool → String → Option Value
default_response method is_secured code =
    if (code == "401") && is_secured
    then some (get_response_ref "NotAuthorized")
    else if (code == "400") && not (is_get method)
    then some (get_response_ref "InvalidData")
    else if code == "500"
    then some (get_response_ref "InternalServerError")
    else none

abbrev pub first_defined : Option Value → Option Value → Option Value
first_defined (some v) _ = some v
first_defined none o = o

abbrev pub described : HttpMethod → Operation → Operation
described method o = record o {
  responses =
      λ code. first_defined (o.responses code) (default_response method (is_some o.security) code);
}

abbrev pub described_item : PathItem → PathItem
described_item item method = map_operation (described method) (item method)

pub responses_at :
    (method : HttpMethod) (o : Operation) (code : String)
    → (with_default_responses method o).responses code ≡ (described method o).responses code
unfolding with_default_responses set_default
responses_at method o code = ground (arith, eq_iff code "401", eq_iff code "400", eq_iff code "500")

with_default_responses-described :
    (method : HttpMethod) (o : Operation) → with_default_responses method o ≡ described method o
unfolding with_default_responses
with_default_responses-described method o =
    ap (λ r. record o { responses = r }) (fun_ext (λ code. responses_at method o code))

visit_all :
    (item : PathItem) (m : HttpMethod)
    → visit_each all_methods item m ≡ map_operation (with_default_responses m) (item m)
unfolding visit_each visit HttpMethod-discrete
visit_all item get_ = refl
visit_all item put = refl
visit_all item post = refl
visit_all item delete = refl
visit_all item options = refl
visit_all item head = refl
visit_all item patch = refl
visit_all item trace = refl

visit_each-described_item : (item : PathItem) → visit_each all_methods item ≡ described_item item
visit_each-described_item item = fun_ext (λ m.
    visit_all item m
    ∙ ap (λ f. map_operation f (item m)) (fun_ext (with_default_responses-described m)))

abbrev pub described_paths : List (String × PathItem) → List (String × PathItem)
described_paths [] = []
described_paths ((path, item) ∷ paths) = (path, described_item item) ∷ described_paths paths

-- The default responses leave the paths and their operations, and every response that an operation
-- describes itself; an operation that does not describe it gets a 401 if it has a security
-- requirement, a 400 unless it is a GET, and a 500, and it gets no other response.
pub add_default_responses-eq-described_paths :
    (paths : List (String × PathItem)) → add_default_responses paths ≡ described_paths paths
unfolding add_default_responses
add_default_responses-eq-described_paths [] = refl
add_default_responses-eq-described_paths ((path, item) ∷ paths) =
    rw (visit_each-described_item item, add_default_responses-eq-described_paths paths)
