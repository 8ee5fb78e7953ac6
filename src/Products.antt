-- ===== src/Products.antt =====
-- src/rasenmaeher_api/productapihelpers.py: calls of the products' own integration APIs. The HTTP
-- client with the service's certificate is a parameter; so is the parser of a response's schema.
use Prim.Native.String
use python_rasenmaeher_api.Base.{String, Bool, true, false, Option, none, some, List, [], ◌∷◌, map}
use python_rasenmaeher_api.Exec.{key_error, Result, ok, err}
use python_rasenmaeher_api.Json.{lookup, Json}
use python_rasenmaeher_api.Settings.{load_manifest, Product, RmSettings}

-- The body of a call's response; `none` is any exception of the client, a status that is an error
-- and a body that is no JSON.
pub record Http (A : Type 0) : Type 0 where
  pub session : Result (Unit {0})
  pub request : String → String → Option Json → Option Json
  pub parse_obj : Json → Option A
  pub refresh_ocsp : Result (Unit {0})

abbrev pub products_of : RmSettings → Option (List (String × Product))
products_of settings = elim settings.manifest [ none ↦ none | some m ↦ m.products ]

unfoldable pub names : List (String × Product) → List String
names [] = []
names ((name, product) ∷ products) = name ∷ names products

-- What a call of all products does: nothing, one background task for each name, or the responses
-- by name. The names are the keys of a JSON object, so they differ.
pub data AllResponses (A : Type 0) : Type 0 where
  nothing : AllResponses A
  background : List String → AllResponses A
  collected : List (String × Option A) → AllResponses A

module _ {A : Type 0} (http : Http A) (settings : RmSettings) where
  abbrev pub parsed : Option Json → Option A
  parsed none = none
  parsed (some payload) = http.parse_obj payload

  -- The `try` block of a call, whose exceptions are logged.
  abbrev pub call_api : Product → String → String → Option Json → Option A
  call_api product methodname url_suffix body =
      parsed (http.request methodname (String.◌++◌ product.api url_suffix) body)

  abbrev pub call_with_session : Product → String → String → Option Json → Result (Option A)
  call_with_session product methodname url_suffix body = elim http.session [
    | err e ↦ err e
    | ok _ ↦ ok (call_api product methodname url_suffix body)
  ]

  -- `_method_to_product`, with the products of the manifest
  unfoldable pub method_to_product : String → String → String → Option Json → Result (Option A)
  unfolding lookup
  method_to_product productname methodname url_suffix body = elim (products_of settings) [
    | none ↦ ok none
    | some products ↦ elim (lookup productname products) [
      | none ↦ err key_error
      | some product ↦ call_with_session product methodname url_suffix body
    ]
  ]

  abbrev pub or_none : Result (Option A) → Option A
  or_none (ok response) = response
  or_none (err e) = none

  -- `handle_one`: an exception is logged, and the product has no response.
  unfoldable pub handle_one : String → String → Option Json → String → String × Option A
  unfolding method_to_product
  handle_one methodname url_suffix body name =
      (name, or_none (method_to_product name methodname url_suffix body))

  abbrev pub gather : String → String → Option Json → Bool → List String → AllResponses A
  gather methodname url_suffix body true all =
      collected (map (handle_one methodname url_suffix body) all)
  gather methodname url_suffix body false all = background all

  abbrev pub after_refresh :
      String
      → String
      → Option Json
      → Bool
      → List String
      → Result (Unit {0})
      → Result (AllResponses A)
  after_refresh methodname url_suffix body collect all (err e) = err e
  after_refresh methodname url_suffix body collect all (ok _) =
      ok (gather methodname url_suffix body collect all)

  -- `_method_to_all_products`
  unfoldable pub method_to_all_products :
      String → String → Option Json → Bool → Result (AllResponses A)
  unfolding load_manifest handle_one names
  method_to_all_products methodname url_suffix body collect_responses =
      elim (load_manifest settings) [
        | err e ↦ err e
        | ok manifest ↦ elim manifest.products [
          | none ↦ ok nothing
          | some products ↦
              after_refresh methodname url_suffix body collect_responses (names products)
                http.refresh_ocsp
        ]
      ]

  abbrev pub post_to_all_products : String → Json → Bool → Result (AllResponses A)
  post_to_all_products url_suffix body = method_to_all_products "post" url_suffix (some body)

  abbrev pub put_to_all_products : String → Json → Bool → Result (AllResponses A)
  put_to_all_products url_suffix body = method_to_all_products "put" url_suffix (some body)

  abbrev pub get_from_all_products : String → Bool → Result (AllResponses A)
  get_from_all_products url_suffix = method_to_all_products "get" url_suffix none

  abbrev pub get_from_product : String → String → Result (Option A)
  get_from_product name url_suffix = method_to_product name "get" url_suffix none

  abbrev pub post_to_product : String → String → Json → Result (Option A)
  post_to_product name url_suffix body = method_to_product name "post" url_suffix (some body)

  abbrev pub put_to_product : String → String → Json → Result (Option A)
  put_to_product name url_suffix body = method_to_product name "put" url_suffix (some body)
