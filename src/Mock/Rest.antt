-- ===== src/Mock/Rest.antt =====
-- mockserver/mock_server.go: `AddRESTRoute`, a resource with the operations of REST over a map.
pub mod Items
pub mod Statuses
pub mod Refines
mod Tests
use httpio.Base.{
  Bool, true, ltb, ℕ, ◌+◌, pos, List, [], ◌∷◌, ◌++◌, Option, none, some, Bytes, bytes, eq, length,
  drop, is_some, if◌then◌else◌,
}
use httpio.Mock.{RouteHandler, MockServer, write_header, http_error, add_route_with_methods}
use httpio.Mock.Routes.{Platform, handle_json_response}

-- The map `storage`, which the handlers share, and its place in the shared state.
pub record Storage (J S : Type 0) : Type 0 where
  pub load : S → List (Bytes × J)
  pub save : List (Bytes × J) → S → S

-- `storage[id]`, `storage[id] = data` and `delete(storage, id)`
unfoldable pub find_item : {J : Type 0} → Bytes → List (Bytes × J) → Option J
find_item id [] = none
find_item id ((k, j) ∷ m) = if eq k id then some j else find_item id m

unfoldable pub assign_item : {J : Type 0} → Bytes → J → List (Bytes × J) → List (Bytes × J)
assign_item id data_ [] = (id, data_) ∷ []
assign_item id data_ ((k, j) ∷ m) =
    if eq k id then (k, data_) ∷ m else (k, j) ∷ assign_item id data_ m

unfoldable pub delete_item : {J : Type 0} → Bytes → List (Bytes × J) → List (Bytes × J)
delete_item id [] = []
delete_item id ((k, j) ∷ m) = if eq k id then m else (k, j) ∷ delete_item id m

-- Packages encoding/json and fmt: the first value of a body, and the values that are sent.
pub record Encoding (J : Type 0) : Type 0 where
  pub decode : Option Bytes → Option J
  pub is_null : J → Bool
  pub object : List (Bytes × J) → J
  pub created : Bytes → J → J
  pub show_number : ℕ → Bytes

module _ {J S : Type 0} (platform : Platform J S) (encoding : Encoding J)
    (storage : Storage J S) where
  abbrev pub answer : ℕ → Option J → RouteHandler S
  unfolding handle_json_response
  answer code data_ =
      handle_json_response platform
        (record { status_code = code; headers = []; data_ = data_; delay = pos 0 })

  -- A JSON null is the nil interface.
  abbrev pub value_of : J → Option J
  value_of j = if encoding.is_null j then none else some j

  -- The handler of the collection.
  unfoldable pub collection : RouteHandler S
  unfolding http_error assign_item answer
  collection delay w r s =
      if eq r.method (bytes "GET")
      then answer 0 (some (encoding.object (storage.load s))) delay w r s
      else if eq r.method (bytes "POST")
      then elim (encoding.decode r.body) [
        | none ↦ (http_error (bytes "Invalid JSON") 400 w, s)
        | some j ↦
            let id = encoding.show_number (length (storage.load s) + 1) in
            answer 201 (some (encoding.created id j)) delay w r
              (storage.save (assign_item id j (storage.load s)) s)
      ]
      else (http_error (bytes "Method not allowed") 405 w, s)

  -- The switch in the handler of an item.
  unfoldable pub serve_item : Bytes → RouteHandler S
  unfolding http_error write_header assign_item find_item delete_item answer
  serve_item id delay w r s =
      if eq r.method (bytes "GET")
      then elim (find_item id (storage.load s)) [
        | some j ↦ answer 0 (value_of j) delay w r s
        | none ↦ (http_error (bytes "Not found") 404 w, s)
      ]
      else if eq r.method (bytes "PUT")
      then elim (encoding.decode r.body) [
        | none ↦ (http_error (bytes "Invalid JSON") 400 w, s)
        | some j ↦
            answer 0 (value_of j) delay w r (storage.save (assign_item id j (storage.load s)) s)
      ]
      else if eq r.method (bytes "DELETE")
      then (if is_some (find_item id (storage.load s))
          then (write_header 204 w, storage.save (delete_item id (storage.load s)) s)
          else (http_error (bytes "Not found") 404 w, s))
      else (http_error (bytes "Method not allowed") 405 w, s)

  -- The handler of an item; `base` is the length of `basePath`. The slice of a shorter path panics.
  unfoldable pub item : ℕ → RouteHandler S
  unfolding serve_item
  item base delay w r s =
      if ltb (length r.path) (base + 1)
      then (record w { panicked = true }, s)
      else serve_item (drop (base + 1) r.path) delay w r s

  -- `AddRESTRoute(basePath, resource, storage)`
  unfoldable pub add_rest_route : Bytes → MockServer S → MockServer S
  unfolding collection item add_route_with_methods
  add_rest_route base_path ms =
      add_route_with_methods (base_path ++ bytes "/{id}") (item (length base_path))
        (bytes "GET" ∷ bytes "PUT" ∷ bytes "DELETE" ∷ [])
        (add_route_with_methods base_path collection (bytes "GET" ∷ bytes "POST" ∷ []) ms)
